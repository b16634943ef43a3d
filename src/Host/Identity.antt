-- ===== src/Host/Identity.antt =====
-- host/identity.go. The file system, the decoders of hex and base64, and the key library are
-- parameters; a key is a value of the last.
pub mod Persisted
use go_p2p_forge.Prelude.{List, Option, String, if◌then◌else◌, length, none, some, ℕ, ◌==◌}
use go_p2p_forge.Codec.Conn.{Result, ok, err}
use go_p2p_forge.Errors.{Err, wrapped, formatted, foreign}

-- os.ReadFile: the bytes, a file that is not there, or another error.
pub data Read : Type 0 where
  found : List ℕ → Read
  not_there : Read
  unreadable : Err → Read

-- `W` is the state of the file system and of the random source. Raw has no error for an Ed25519 key
-- but is checked where the code checks it.
pub record Keys (W K : Type 0) : Type 0 where
  pub read_file : String → W → Read
  pub mkdir_all : String → W → Option Err × W
  pub write_file : String → List ℕ → W → Option Err × W
  pub generate : W → Result Err K × W
  pub raw : K → Result Err (List ℕ)
  pub unmarshal : List ℕ → Result Err K
  pub trim_space : List ℕ → List ℕ
  pub decode_hex : List ℕ → Option (List ℕ)
  pub decode_base64 : List ℕ → Option (List ℕ)
  pub dir : String → String
  pub expand_path : String → String

module _ {W K : Type 0} (lib : Keys W K) where
  abbrev pub wrap_error : String → Result Err K → Result Err K
  wrap_error m (ok k) = ok k
  wrap_error m (err e) = err (wrapped m e)

  abbrev pub saved : K → Option Err × W → Result Err K × W
  saved k (none, w) = (ok k, w)
  saved k (some e, w) = (err (wrapped "save identity" e), w)

  abbrev pub marshalled : String → K → Result Err (List ℕ) → W → Result Err K × W
  marshalled path k (err e) w = (err (wrapped "marshal key" e), w)
  marshalled path k (ok bytes) w = saved k (lib.write_file path bytes w)

  abbrev pub in_dir : String → K → Option Err × W → Result Err K × W
  in_dir path k (some e, w) = (err (wrapped "create identity dir" e), w)
  in_dir path k (none, w) = marshalled path k (lib.raw k) w

  abbrev pub generated : String → Result Err K × W → Result Err K × W
  generated path (err e, w) = (err (wrapped "generate key" e), w)
  generated path (ok k, w) = in_dir path k (lib.mkdir_all (lib.dir path) w)

  abbrev pub loaded : String → Read → W → Result Err K × W
  loaded path (found bytes) w = (wrap_error "unmarshal identity" (lib.unmarshal bytes), w)
  loaded path (unreadable e) w = (err (wrapped "read identity" e), w)
  loaded path not_there w = generated path (lib.generate w)

  unfoldable pub load_or_create_identity : String → W → Result Err K × W
  load_or_create_identity path w =
      loaded (lib.expand_path path) (lib.read_file (lib.expand_path path) w) w

  unfoldable pub load_identity_from_seed : List ℕ → Result Err K
  load_identity_from_seed seed =
      if length seed == 32 then lib.unmarshal seed else err (formatted "seed must be 32 bytes")

  -- The seed of one format, where the content has its length and decodes to 32 bytes.
  abbrev seed_of : ℕ → (List ℕ → Option (List ℕ)) → List ℕ → Option (List ℕ)
  seed_of n decode content =
      if length content == n
      then elim (decode content) [
        | none ↦ none
        | some seed ↦ if length seed == 32 then some seed else none
      ]
      else none

  abbrev or_else : Option (List ℕ) → Result Err K → Result Err K
  or_else none r = r
  or_else (some seed) r = lib.unmarshal seed

  from_bytes : List ℕ → Result Err K
  from_bytes bytes =
      if length bytes == 32
      then lib.unmarshal bytes
      else or_else (seed_of 64 lib.decode_hex (lib.trim_space bytes)) (
          or_else (seed_of 44 lib.decode_base64 (lib.trim_space bytes))
            (err (formatted "invalid identity format")))

  unfoldable pub load_identity_from_file : String → W → Result Err K
  unfolding from_bytes
  load_identity_from_file path w = elim (lib.read_file path w) [
    | found bytes ↦ from_bytes bytes
    | not_there ↦ err (wrapped "read identity file" (foreign 2))
    | unreadable e ↦ err (wrapped "read identity file" e)
  ]
