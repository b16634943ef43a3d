-- ===== src/Tests/Pools.antt =====
-- A pool that is used: buffers got, released twice, and got again.
use go_p2p_forge.Prelude.{[], ◌∷◌}
use go_p2p_forge.Codec.Pool.{new_buffer_pool, Holding, gets, releases, use_run}
use go_p2p_forge.Codec.Pool.Shared.{IsExclusive, use_run-IsExclusive, new-IsExclusive}

abbrev unused : Holding
unused = record { pool = new_buffer_pool; handles = [] }

use_run-IsExclusive_example :
    IsExclusive (use_run unused (gets 0 10 ∷ releases 0 ∷ releases 0 ∷ gets 0 20 ∷ gets 0 30 ∷ []))
use_run-IsExclusive_example =
    use_run-IsExclusive unused (gets 0 10 ∷ releases 0 ∷ releases 0 ∷ gets 0 20 ∷ gets 0 30 ∷ [])
      new-IsExclusive
