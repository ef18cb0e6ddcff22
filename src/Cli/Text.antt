-- ===== src/Cli/Text.antt =====
-- What the command line uses of the standard library's texts and paths. A path is its text.
use Prim.Native.Char.{code}
use Prim.Native.String.{String, ◌++◌ as ◌<>◌}
use text.Mathlib.Text.{starts_with}
use blockchain_validator.Prelude.{
  ℕ, zero, suc, ◌+◌, ◌*◌, ◌≡◌, refl, ap, ◌∙◌, Bool, true, false, List, [], ◌∷◌, arith,
  if◌then◌else◌, ◌==◌, nat_eq,
}

abbrev pub PathBuf : Type 0
PathBuf = String

-- `join` of a slice of texts
abbrev pub join_texts : String → List String → String
join_texts separator [] = ""
join_texts separator (s ∷ []) = s
join_texts separator (s ∷ t ∷ rest) = s <> separator <> join_texts separator (t ∷ rest)

ends_with_slash : String → Bool
ends_with_slash String.[] = false
ends_with_slash (String.◌∷◌ c String.[]) = code c == 47
ends_with_slash (String.◌∷◌ c (String.◌∷◌ c' s)) = ends_with_slash (String.◌∷◌ c' s)

is_empty : String → Bool
is_empty String.[] = true
is_empty (String.◌∷◌ c s) = false

-- `Path::join`: an absolute path replaces what stands before it.
unfoldable pub join_path : PathBuf → String → PathBuf
unfolding ends_with_slash is_empty
join_path base name =
    if starts_with name "/"
    then name
    else if is_empty base
    then name
    else if ends_with_slash base
    then base <> name
    else base <> "/" <> name

-- The decimal digits of a number, the lowest first, by counting up.
increment : List ℕ → List ℕ
increment [] = 1 ∷ []
increment (digit ∷ digits) =
    let carried = increment digits in if digit == 9 then 0 ∷ carried else suc digit ∷ digits

digits : ℕ → List ℕ
digits zero = []
digits (suc n) = increment (digits n)

value : List ℕ → ℕ
value [] = 0
value (digit ∷ rest) = digit + 10 * value rest

value-increment : (ds : List ℕ) → value (increment ds) ≡ suc (value ds)
unfolding value increment
value-increment [] = refl
value-increment (digit ∷ rest) = ground (arith, value-increment rest)

value-digits : (n : ℕ) → value (digits n) ≡ n
unfolding value digits
value-digits zero = refl
value-digits (suc n) = value-increment (digits n) ∙ ap suc (value-digits n)

pick : List String → ℕ → String
pick [] n = ""
pick (s ∷ ss) zero = s
pick (s ∷ ss) (suc n) = pick ss n

digit_texts : List String
digit_texts = "0" ∷ "1" ∷ "2" ∷ "3" ∷ "4" ∷ "5" ∷ "6" ∷ "7" ∷ "8" ∷ "9" ∷ []

show_digits : List ℕ → String
show_digits [] = ""
show_digits (digit ∷ rest) = show_digits rest <> pick digit_texts digit

-- `Display` of a `usize`
unfoldable pub decimal : ℕ → String
unfolding show_digits digits increment pick digit_texts
decimal zero = "0"
decimal (suc n) = show_digits (digits (suc n))

shown : decimal 1207 ≡ "1207"
unfolding decimal
shown = refl
