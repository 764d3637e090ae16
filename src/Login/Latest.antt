-- ===== src/Login/Latest.antt =====
-- app/auth/login_protection.py: the latest block of an account when an attempt is added.
use palworld_manager.Prelude.{
  ℕ, ◌≤◌, ◌<◌, ◌≡◌, refl, true, false, String, Option, some, List, [], ◌∷◌, ◌++◌, arith, Bool-cases,
  inl, inr,
}
use palworld_manager.Db.Rows.{Time, LoginAttempt}
use palworld_manager.Login.{is_newer, is_block, latest_block, fresh_attempt_id}

-- No attempt was made later than this.
abbrev pub MadeBy : Time → List LoginAttempt → Type 0
MadeBy now [] = Unit
MadeBy now (a ∷ rows) = (a.attempted_at ≤ now) × MadeBy now rows

pub MadeBy-later :
    (t now : Time) (rows : List LoginAttempt) → t ≤ now → MadeBy t rows → MadeBy now rows
MadeBy-later t now [] le h = tt
MadeBy-later t now (a ∷ rows) le h = (omega arith, MadeBy-later t now rows le h.1)

pub MadeBy-append :
    (now : Time) (rows : List LoginAttempt) (a : LoginAttempt)
    → MadeBy now rows
    → a.attempted_at ≤ now
    → MadeBy now (rows ++ a ∷ [])
MadeBy-append now [] a h le = (le, tt)
MadeBy-append now (b ∷ rows) a h le = (h.0, MadeBy-append now rows a h.1 le)

fresh_after :
    (a : LoginAttempt) (rows : List LoginAttempt) (n : ℕ)
    → fresh_attempt_id (a ∷ rows) ≤ n
    → (a.id < n) × (fresh_attempt_id rows ≤ n)
unfolding fresh_attempt_id
fresh_after a rows n h = ground arith

after_is_newer :
    (x a : LoginAttempt) → a.attempted_at ≤ x.attempted_at → a.id < x.id → is_newer x a ≡ true
after_is_newer x a le lt = ground arith

module _ (username : Option String) (x : LoginAttempt) where
  pub latest_block-append_block :
      (rows : List LoginAttempt)
      → is_block username x ≡ true
      → MadeBy x.attempted_at rows
      → fresh_attempt_id rows ≤ x.id
      → latest_block username (rows ++ x ∷ []) ≡ some x
  unfolding latest_block
  latest_block-append_block [] blocks h fresh = rw blocks refl
  latest_block-append_block (a ∷ rows) blocks h fresh =
      let (lt, fresh') = fresh_after a rows x.id fresh in
      let rest = latest_block-append_block rows blocks h.1 fresh' in
      let newest = after_is_newer x a h.0 lt in
      elim (Bool-cases (is_block username a)) [
        | inl e ↦ rw (rest, e, newest) refl
        | inr e ↦ rw (rest, e) refl
      ]

  pub latest_block-append_other :
      (rows : List LoginAttempt)
      → is_block username x ≡ false
      → latest_block username (rows ++ x ∷ []) ≡ latest_block username rows
  unfolding latest_block
  latest_block-append_other [] other = rw other refl
  latest_block-append_other (a ∷ rows) other = rw (latest_block-append_other rows other) refl
