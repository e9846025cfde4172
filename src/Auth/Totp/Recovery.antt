-- ===== src/Auth/Totp/Recovery.antt =====
-- Recovery codes that were enrolled.
use Prim.Native.Char.{Char}
use pylar_framework.Text.{is_ascii, compare_digest}
use pylar_framework.Auth.Totp.{
  returned, normalise_recovery, hash_recovery_code, find_hash, verify_recovery_code,
}
use pylar_framework.Prelude.{
  Bool, List, String, [], arith, eq_iff, inl, inr, some, true, ◌∷◌, ◌≡◌, ◌⊎◌,
}

abbrev pub Stored : String → List String → Type 0
Stored hash [] = ⊥
Stored hash (stored ∷ hashes) = (stored ≡ hash) ⊎ Stored hash hashes

abbrev pub AllAscii : List String → Type 0
AllAscii [] = Unit
AllAscii (stored ∷ hashes) = (is_ascii stored ≡ true) × AllAscii hashes

find_hash-Stored :
    (target : String) (hashes : List String)
    → is_ascii target ≡ true
    → AllAscii hashes
    → Stored target hashes
    → find_hash target hashes ≡ returned (some target)
unfolding find_hash compare_digest
find_hash-Stored target [] h k there = elim there [ ]
find_hash-Stored target (stored ∷ hashes) h (k, ks) (inl same) =
    ground (arith, h, k, same, eq_iff stored target)
find_hash-Stored target (stored ∷ hashes) h (k, ks) (inr later) =
    ground (arith, h, k, eq_iff stored target, find_hash-Stored target hashes h ks later)

find_hash-found :
    (target hash : String) (hashes : List String)
    → find_hash target hashes ≡ returned (some hash)
    → (hash ≡ target) × Stored target hashes
unfolding find_hash compare_digest
find_hash-found target hash [] h = ground (arith, h)
find_hash-found target hash (stored ∷ hashes) h =
    ground (arith, h, eq_iff stored target, find_hash-found target hash hashes)

module _ (upper : String → String) (is_alnum : Char → Bool) (sha256 : String → String) where
  -- A candidate that normalises to the same text as an enrolled code, whatever its dashes, spaces and
  -- case, is answered with the hash of that code, if the hashes are ASCII texts.
  pub verify_recovery_code-enrolled :
      (candidate code : String) (hashes : List String)
      → normalise_recovery upper is_alnum sha256 candidate
        ≡ normalise_recovery upper is_alnum sha256 code
      → is_ascii (hash_recovery_code upper is_alnum sha256 code) ≡ true
      → AllAscii hashes
      → Stored (hash_recovery_code upper is_alnum sha256 code) hashes
      → verify_recovery_code upper is_alnum sha256 candidate hashes
        ≡ returned (some (hash_recovery_code upper is_alnum sha256 code))
  unfolding verify_recovery_code hash_recovery_code
  verify_recovery_code-enrolled candidate code hashes same h k there =
      rw same (find_hash-Stored _ hashes h k there)

  -- A hash that is answered is that of the candidate, and is stored.
  pub verify_recovery_code-Stored :
      (candidate hash : String) (hashes : List String)
      → verify_recovery_code upper is_alnum sha256 candidate hashes ≡ returned (some hash)
      → (hash ≡ hash_recovery_code upper is_alnum sha256 candidate)
        × Stored (hash_recovery_code upper is_alnum sha256 candidate) hashes
  unfolding verify_recovery_code
  verify_recovery_code-Stored candidate hash hashes h = find_hash-found _ hash hashes h
