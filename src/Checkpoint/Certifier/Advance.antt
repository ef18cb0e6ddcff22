-- ===== src/Checkpoint/Certifier/Advance.antt =====
-- What the loop over the certified front of the window does.
use blockchain_validator.Prelude.{
  ◌≡◌, refl, sym, ap, ◌∙◌, Option, none, some, List, [], ◌∷◌, ◌++◌, All,
}
use blockchain_validator.Dag.{Dag}
use blockchain_validator.Checkpoint.Types.{CertifiedCheckpoint}
use blockchain_validator.Checkpoint.Certifier.{PendingCheckpoint, advance}

module _ (d : Dag) where
  abbrev Entry : Type 0
  Entry = PendingCheckpoint d

  abbrev Certificate : Type 0
  Certificate = Option (CertifiedCheckpoint d)

  -- The certificate of the last of some certified entries, or what there was before.
  abbrev pub last_certificate : List Entry → Certificate → Certificate
  last_certificate [] before = before
  last_certificate (entry ∷ entries) before = last_certificate entries entry.certificate

  abbrev pub IsCertified : Entry → Type 0
  IsCertified entry = (c : CertifiedCheckpoint d) × (entry.certificate ≡ some c)

  -- The window is empty or its front has no certificate.
  abbrev pub IsOpen : List Entry → Type 0
  IsOpen [] = Unit
  IsOpen (entry ∷ entries) = entry.certificate ≡ none

  pub last_certificate-append :
      (xs ys : List Entry) (before : Certificate)
      → last_certificate (xs ++ ys) before ≡ last_certificate ys (last_certificate xs before)
  last_certificate-append [] ys before = refl
  last_certificate-append (x ∷ xs) ys before = last_certificate-append xs ys x.certificate

  pub record Advanced (entries : List Entry) (before : Certificate)
      (result : List Entry × Certificate) : Type 0 where
    pub popped : List Entry
    pub split : entries ≡ popped ++ result.0
    pub certified : All IsCertified popped
    pub watermark : result.1 ≡ last_certificate popped before
    pub front : IsOpen result.0

  -- The loop pops exactly the certified front.
  pub advance-Advanced :
      (entries : List Entry) (before : Certificate)
      → Advanced entries before (advance d entries before)
  unfolding advance
  advance-Advanced [] before = record {
    popped = [];
    split = refl;
    certified = tt;
    watermark = refl;
    front = tt;
  }
  advance-Advanced (entry ∷ entries) before =
      by_certificate entry.certificate refl (λ c. advance-Advanced entries (some c))
    where
      by_certificate :
          (o : Certificate)
          → entry.certificate ≡ o
          → ((c : CertifiedCheckpoint d) → Advanced entries (some c) (advance d entries (some c)))
          → Advanced
              (entry ∷ entries)
              before
              (elim o [ none ↦ (entry ∷ entries, before) | some c ↦ advance d entries (some c) ])
      by_certificate none e rest = record {
        popped = [];
        split = refl;
        certified = tt;
        watermark = refl;
        front = e;
      }
      by_certificate (some c) e rest = record {
        popped = entry ∷ (rest c).popped;
        split = ap (◌∷◌ entry) (rest c).split;
        certified = ((c, e), (rest c).certified);
        watermark = (rest c).watermark ∙ ap (last_certificate (rest c).popped) (sym e);
        front = (rest c).front;
      }
