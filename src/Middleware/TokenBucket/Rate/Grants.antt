-- ===== src/Middleware/TokenBucket/Rate/Grants.antt =====
-- What a bucket grants a peer, over shards and eviction (middleware/tokenbucket.go).
use go_p2p_forge.Prelude.{
  List, String, ap, arith, false, length, refl, subst, sym, ℕ, ◌*◌, ◌+◌, ◌-◌, ◌∙◌, ◌≡◌, ◌≤◌,
}
use go_p2p_forge.Middleware.SingleBucket.{default_shard_count}
use go_p2p_forge.Middleware.Shards.{find_entry}
use go_p2p_forge.Middleware.TokenBucket.{FloatOps, TokenBucket}
use go_p2p_forge.Middleware.TokenBucket.Ranged.{IsCurrent, RangeLaws, refresh-InRange}
use go_p2p_forge.Middleware.TokenBucket.Evict.{Laws, Event, Book, Tracks}
use go_p2p_forge.Middleware.TokenBucket.Decisions.{serve_all, InOrder, limited, serve_all_tracked}
use go_p2p_forge.Middleware.TokenBucket.Rate.{granted, asks, Before, Rounds}
use go_p2p_forge.Middleware.TokenBucket.Rate.Budget.{reference_bounded}

-- A limited bucket in which the peer has no entry, or one in range and of no later time than `t`, and
-- whatever entries the other peers have; from `t` on, under requests of any peers and rounds of
-- eviction in any interleaving, none of which reads a time before an earlier one or after `finish`. What
-- a peer is granted is worth at most a full burst and the refill of the time from `t` to `finish`, and
-- twice the rounding slack for each request of the peer. float64 is as named.
pub grants_bounded :
    {F : Type 0} (fp : FloatOps F) (b : TokenBucket F) (value : F → ℕ) (unit speed slack : ℕ)
    (key : String) (es : List Event) (t finish : ℕ)
    → length b.shards ≡ default_shard_count
    → b.unlimited ≡ false
    → Laws fp b.refill_per_sec b.burst
    → Rounds fp b.refill_per_sec b.burst value unit speed slack
    → RangeLaws fp b.refill_per_sec b.burst
    → IsCurrent fp b.burst t (find_entry b.shards key)
    → InOrder t es
    → Before finish es
    → t ≤ finish
    → granted key es (serve_all fp es b) * unit
      ≤ value b.burst + speed * (finish - t) + (slack + slack) * asks key es
grants_bounded {F} fp b value unit speed slack key es t finish sized limits laws rounds ranges
      current order before h =
    let shards = b.shards in
    let book : Book fp b.refill_per_sec b.burst = λ j. find_entry shards j in
    let tracks : Tracks fp b.refill_per_sec b.burst t shards book = record {
      sized = sized;
      same_entry = λ j now k. refl;
    } in
    let known : b ≡ limited fp b.refill_per_sec b.burst b.idle_ttl shards =
      ap (λ u. record b { unlimited = u }) limits in
    let answers =
      ap (serve_all fp es) known
      ∙ serve_all_tracked fp b.refill_per_sec b.burst b.idle_ttl laws t es shards book order
          tracks in
    subst
      (λ as_given.
        granted key es as_given * unit
        ≤ value b.burst + speed * (finish - t) + (slack + slack) * asks key es)
      (sym answers)
      (reference_bounded fp b.refill_per_sec b.burst value unit speed slack rounds ranges key es
        book t (value b.burst) finish
        (record {
          current = current;
          bound = λ now later.
              let low = rounds.worth _ (
                refresh-InRange fp b.refill_per_sec b.burst t now (book key) ranges later
                  current) in
              omega (arith, low);
        })
        order before h)
