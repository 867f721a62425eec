-- ===== src/Accounting/Round.antt =====
-- How old the answer of `current_round` may be.
use aleo_pool_server.Prelude.{ℕ, ◌-◌, ◌≡◌, none, some, arith, ltb, if◌then◌else◌}
use aleo_pool_server.Cache
use aleo_pool_server.Cache.{Cache}
use aleo_pool_server.Cache.Reads.{get-set}
use aleo_pool_server.Map.{Map}
use aleo_pool_server.Pplns.{Pplns}
use aleo_pool_server.Accounting.{
  Accounting, Null, Null-discrete, null, report, pplns_to_provers_shares, current_round,
  round_cache_duration,
}

read_back :
    {Owner : Type 0} (now later : ℕ) (c : Cache Null (ℕ × Map Owner ℕ)) (v : ℕ × Map Owner ℕ)
    → Cache.get Null-discrete later (Cache.set Null-discrete now c null v) null
      ≡ (if ltb c.duration (later - now) then none else some v)
unfolding Null-discrete
read_back now later c v = get-set Null-discrete later now c null null v

module _ {Commitment Owner : Type 0} (dec : Discrete Owner) where
  -- If the cache lasts ten seconds and misses at `now`, and the window has become `pplns` at
  -- `later`, then the second answer has the provers and shares of the first window, up to ten
  -- seconds, and those of the present window after that; the two counters of the window are always
  -- the present ones.
  pub current_round_age :
      (now later : ℕ) (s : Accounting Commitment Owner) (pplns : Pplns Owner)
      → Cache.get Null-discrete now s.round_cache null ≡ none
      → s.round_cache.duration ≡ round_cache_duration
      → let (first, s') = current_round dec now s in
        let (second, _) = current_round dec later (record s' { pplns = pplns }) in
        let stale = ltb round_cache_duration (later - now) in
        let table = pplns_to_provers_shares dec (if stale then pplns else s.pplns) in
        (second.provers ≡ table.0)
        × (second.shares ≡ table.1)
        × (second.n ≡ pplns.n)
        × (second.current_n ≡ pplns.current_n)
  unfolding current_round report
  current_round_age now later s pplns miss d =
      ground (arith, read_back now later s.round_cache (pplns_to_provers_shares dec s.pplns))
