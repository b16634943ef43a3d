-- ===== src/Host/Identity/Persisted.antt =====
-- An identity that is created is the one loaded afterwards (host/identity.go).
use go_p2p_forge.Prelude.{List, Option, String, none, refl, some, subst, ℕ, ◌≡◌}
use go_p2p_forge.Codec.Conn.{Result, ok, err}
use go_p2p_forge.Errors.{Err}
use go_p2p_forge.Host.Identity.{
  Read, found, not_there, unreadable, Keys, wrap_error, saved, marshalled, in_dir, generated,
  loaded, load_or_create_identity,
}

-- What is relied on of the file system and the key library: a file that was written reads back, and
-- a key's raw form unmarshals to the key.
pub record Persists {W K : Type 0} (lib : Keys W K) : Type 0 where
  pub reads_back :
      (path : String) (bytes : List ℕ) (w : W)
      → (lib.write_file path bytes w).0 ≡ none
      → lib.read_file path (lib.write_file path bytes w).1 ≡ found bytes
  pub unmarshals : (k : K) (bytes : List ℕ) → lib.raw k ≡ ok bytes → lib.unmarshal bytes ≡ ok k

module _ {W K : Type 0} (lib : Keys W K) (persists : Persists lib) (path : String) where
  -- That a call ended with a key makes every later call on the path end with it.
  abbrev Again : Result Err K × W → Type 0
  Again (err e, w) = Unit
  Again (ok k, w) = loaded lib path (lib.read_file path w) w ≡ (ok k, w)

  saved-Again :
      (k : K) (bytes : List ℕ) (w : W) (o : Option Err)
      → lib.raw k ≡ ok bytes
      → (lib.write_file path bytes w).0 ≡ o
      → Again (saved lib k (o, (lib.write_file path bytes w).1))
  saved-Again k bytes w (some e) h q = tt
  saved-Again k bytes w none h q =
      rw (persists.reads_back path bytes w q, persists.unmarshals k bytes h) refl

  marshalled-Again :
      (k : K) (r : Result Err (List ℕ)) (w : W) → lib.raw k ≡ r → Again (marshalled lib path k r w)
  marshalled-Again k (err e) w h = tt
  marshalled-Again k (ok bytes) w h = saved-Again k bytes w _ h refl

  in_dir-Again : (k : K) (r : Option Err × W) → Again (in_dir lib path k r)
  in_dir-Again k (some e, w) = tt
  in_dir-Again k (none, w) = marshalled-Again k (lib.raw k) w refl

  generated-Again : (r : Result Err K × W) → Again (generated lib path r)
  generated-Again (err e, w) = tt
  generated-Again (ok k, w) = in_dir-Again k _

  unmarshalled-Again :
      (bytes : List ℕ) (w : W) (r : Result Err K)
      → lib.read_file path w ≡ found bytes
      → lib.unmarshal bytes ≡ r
      → Again (wrap_error lib "unmarshal identity" r, w)
  unmarshalled-Again bytes w (err e) h k = tt
  unmarshalled-Again bytes w (ok key) h k = rw (h, k) refl

  loaded-Again : (r : Read) (w : W) → lib.read_file path w ≡ r → Again (loaded lib path r w)
  loaded-Again (found bytes) w h = unmarshalled-Again bytes w (lib.unmarshal bytes) h refl
  loaded-Again (unreadable e) w h = tt
  loaded-Again not_there w h = generated-Again (lib.generate w)

  Again-ok :
      (k : K) (w : W) (r : Result Err K × W)
      → r ≡ (ok k, w)
      → Again r
      → loaded lib path (lib.read_file path w) w ≡ (ok k, w)
  Again-ok k w r h q = subst Again h q

-- Where LoadOrCreateIdentity answers with a key, created or loaded, every later call on the same path
-- answers with that key and changes nothing, as long as files read back and keys unmarshal.
pub load_or_create_identity_again :
    {W K : Type 0} (lib : Keys W K) (path : String) (w w' : W) (k : K)
    → Persists lib
    → load_or_create_identity lib path w ≡ (ok k, w')
    → load_or_create_identity lib path w' ≡ (ok k, w')
unfolding load_or_create_identity
load_or_create_identity_again lib path w w' k persists h =
    let at = lib.expand_path path in
    Again-ok lib persists at k w' _ h (loaded-Again lib persists at (lib.read_file at w) w refl)
