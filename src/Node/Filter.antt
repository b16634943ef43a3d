-- ===== src/Node/Filter.antt =====
-- dialableFilter and isDirect of node/filter.go.
use go_p2p_forge.Prelude.{
  ==_iff, All, Bool, Bool-cases, List, [], arith, false, false≢true, if◌then◌else◌, inl, inr, not,
  refl, subst, true, ℕ, ◌&&◌, ◌==◌, ◌↔◌, ◌∷◌, ◌≡◌, ◌≢◌, ◌⊎◌,
}

pub data Direction : Type 0 where
  inbound outbound : Direction

-- A connection: its direction, whether it is limited, and the protocol codes of its remote address.
pub record PeerConn : Type 0 where
  pub direction : Direction
  pub limited : Bool
  pub protocols : List ℕ

-- multiaddr.P_CIRCUIT
abbrev pub p_circuit : ℕ
p_circuit = 290

-- The loop of isDirect: it stops at the first component that is a circuit, with `relayed` set by the
-- last one that it saw.
abbrev pub relayed_from : Bool → List ℕ → Bool
relayed_from relayed [] = relayed
relayed_from relayed (code ∷ codes) =
    let rest = relayed_from (code == p_circuit) codes in if code == p_circuit then true else rest

unfoldable pub is_direct : PeerConn → Bool
is_direct c = if c.limited then false else not (relayed_from false c.protocols)

abbrev pub is_outbound : Direction → Bool
is_outbound inbound = false
is_outbound outbound = true

unfoldable pub dialable_filter : List PeerConn → Bool
unfolding is_direct
dialable_filter [] = false
dialable_filter (c ∷ conns) =
    let rest = dialable_filter conns in
    if is_outbound c.direction && is_direct c then true else rest

-- That `c` is one of the connections.
abbrev pub Among : PeerConn → List PeerConn → Type 0
Among c [] = ⊥
Among c (d ∷ conns) = (c ≡ d) ⊎ Among c conns

-- A direct connection that this host opened: neither limited nor through a circuit.
pub record IsDialable (c : PeerConn) : Type 0 where
  pub opened : is_outbound c.direction ≡ true
  pub unlimited : c.limited ≡ false
  pub no_circuit : All (λ code. code ≢ p_circuit) c.protocols

relayed_from-All :
    (codes : List ℕ) → relayed_from false codes ≡ false → All (λ code. code ≢ p_circuit) codes
relayed_from-All [] h = tt
relayed_from-All (c ∷ codes) h = elim (Bool-cases (c == p_circuit)) [
  | inl e ↦ absurd (ground arith)
  | inr e ↦
      let rest : relayed_from false codes ≡ false = cc in
      ((λ q. ground (arith, ==_iff c p_circuit)), relayed_from-All codes rest)
]

All-relayed_from :
    (codes : List ℕ) → All (λ code. code ≢ p_circuit) codes → relayed_from false codes ≡ false
All-relayed_from [] h = refl
All-relayed_from (c ∷ codes) h =
    let e : (c == p_circuit) ≡ false = ground (arith, ==_iff c p_circuit, h.0) in
    rw e (All-relayed_from codes h.1)

admits-IsDialable : (c : PeerConn) → (is_outbound c.direction && is_direct c) ≡ true → IsDialable c
unfolding is_direct
admits-IsDialable c h =
    let opened : is_outbound c.direction ≡ true = ground arith in
    let unlimited : c.limited ≡ false = ground arith in
    let direct : relayed_from false c.protocols ≡ false = ground arith in
    record {
      opened = opened;
      unlimited = unlimited;
      no_circuit = relayed_from-All c.protocols direct;
    }

IsDialable-admits : (c : PeerConn) → IsDialable c → (is_outbound c.direction && is_direct c) ≡ true
unfolding is_direct
IsDialable-admits c h =
    ground (arith, h.opened, h.unlimited, All-relayed_from c.protocols h.no_circuit)

finds :
    (conns : List PeerConn)
    → dialable_filter conns ≡ true
    → (c : PeerConn) × (Among c conns × IsDialable c)
unfolding dialable_filter
finds [] h = absurd (false≢true h)
finds (c ∷ conns) h = elim (Bool-cases (is_outbound c.direction && is_direct c)) [
  | inl e ↦ (c, (inl refl, admits-IsDialable c e))
  | inr e ↦
      let rest : dialable_filter conns ≡ true = cc in
      let (d, (m, k)) = finds conns rest in (d, (inr m, k))
]

admitted :
    (conns : List PeerConn) (c : PeerConn)
    → Among c conns
    → IsDialable c
    → dialable_filter conns ≡ true
unfolding dialable_filter
admitted [] c m k = absurd m
admitted (d ∷ conns) c (inl e) k =
    let yes : (is_outbound d.direction && is_direct d) ≡ true =
      IsDialable-admits d (subst IsDialable e k) in
    rw yes refl
admitted (d ∷ conns) c (inr m) k = let rest = admitted conns c m k in ground (arith, rest)

-- A peer is admitted to the routing table exactly when one of its connections was opened by this host,
-- is not limited, and has no circuit in its remote address.
pub dialable_filter_iff :
    (conns : List PeerConn)
    → (dialable_filter conns ≡ true) ↔ ((c : PeerConn) × (Among c conns × IsDialable c))
dialable_filter_iff conns = (finds conns, λ r. admitted conns r.0 r.1.0 r.1.1)
