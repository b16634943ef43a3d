-- ===== src/Codec/Conn.antt =====
-- The two ends of a stream as the frame codec uses them: io.Reader with io.ReadFull and
-- SetReadDeadline, io.Writer with SetWriteDeadline (codec/frame.go, armRead and armWrite).
pub mod Laws
use go_p2p_forge.Prelude.{
  Bool, List, Option, [], false, if◌then◌else◌, leb, leb_ℤ, length, ltb, none, pos, pos_part, some,
  suc, take, true, zero, ℕ, ℤ, ◌++◌, ◌+◌, ◌-◌, ◌∷◌,
}

-- Why a read or a write did not complete. `hang` is the call that never returns, `was_reset` the error
-- of a stream that has been reset.
pub data Fault : Type 0 where
  eof unexpected_eof timed_out was_reset hang : Fault

pub data Result {ℓ κ} (E : Type ℓ) (A : Type κ) : Type (ℓ ⊔ κ) where
  ok : A → Result E A
  err : E → Result E A

-- What follows the last byte: the peer closes its end, or sends nothing more and keeps it open, or the
-- stream is reset.
pub data Ending : Type 0 where
  closes silent resets : Ending

-- Each byte comes with the time that passes before it arrives. `bounded` says that the reader has
-- SetReadDeadline.
pub record Conn : Type 0 where
  pub input : List (ℕ × ℕ)
  pub ending : Ending
  pub clock : ℕ
  pub deadline : Option ℕ
  pub bounded : Bool

unfoldable pub at_end : Conn → Bool → Ending → Option ℕ → Result Fault (List ℕ) × Conn
at_end c started closes d = (err (if started then unexpected_eof else eof), c)
at_end c started resets d = (err was_reset, c)
at_end c started silent none = (err hang, c)
at_end c started silent (some d) =
    (err timed_out, record c { clock = if ltb c.clock d then d else c.clock })

abbrev pub misses : Option ℕ → ℕ → Bool
misses none t = false
misses (some d) t = ltb d t

abbrev pub prepend {ℓ} : {S : Type ℓ} → ℕ → Result Fault (List ℕ) × S → Result Fault (List ℕ) × S
prepend b (ok bs, s) = (ok (b ∷ bs), s)
prepend b (err e, s) = (err e, s)

-- io.ReadFull of `n` bytes; `started` says that some bytes of the buffer are filled already.
unfoldable pub read_from : List (ℕ × ℕ) → ℕ → Bool → Conn → Result Fault (List ℕ) × Conn
read_from input zero started c = (ok [], record c { input = input })
read_from [] (suc n) started c = at_end (record c { input = [] }) started c.ending c.deadline
read_from ((wait, b) ∷ rest) (suc n) started c =
    let more = prepend b (read_from rest n true (record c { clock = c.clock + wait })) in
    if misses c.deadline (c.clock + wait)
    then (err timed_out, record c { input = (wait, b) ∷ rest })
    else more

unfoldable pub read_full : ℕ → Conn → Result Fault (List ℕ) × Conn
unfolding read_from at_end
read_full n c = read_from c.input n false c

-- armRead
unfoldable pub arm_read : Conn → ℤ → Conn
arm_read c idle =
    if leb_ℤ idle (pos 0)
    then c
    else if c.bounded
    then record c { deadline = some (c.clock + pos_part idle) }
    else c

-- The writing end: what went out, how much more the peer's window takes (`none` for any amount),
-- whether SetWriteDeadline exists, whether a deadline is set, and whether the stream is reset once
-- `room` is used up.
pub record Sink : Type 0 where
  pub written : List ℕ
  pub room : Option ℕ
  pub bounded : Bool
  pub armed : Bool
  pub cut : Bool

-- One Write call: all of `p`, or what fits and then a stall, which a reset or a deadline ends.
unfoldable pub write : Sink → List ℕ → Result Fault (Unit {0}) × Sink
write s p = elim s.room [
  | none ↦ (ok tt, record s { written = s.written ++ p })
  | some r ↦
      if leb (length p) r
      then (ok tt, record s { written = s.written ++ p; room = some (r - length p) })
      else (
        err (if s.cut then was_reset else if s.armed then timed_out else hang),
        record s { written = s.written ++ take r p; room = some 0 },
      )
]

-- armWrite
unfoldable pub arm_write : Sink → ℤ → Sink
arm_write s idle =
    if leb_ℤ idle (pos 0) then s else if s.bounded then record s { armed = true } else s
