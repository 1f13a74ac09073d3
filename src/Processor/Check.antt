-- ===== src/Processor/Check.antt =====
-- The ordered check of a popped result against the hash below it.
use shinzo_generator_client.Prelude.{
  ℕ, suc, ◌-◌, String, ◌∷◌, Bool, false, ◌||◌, ◌&&◌, not, Option, none, some, Result, ok, err, ◌==◌,
  str_eq, if◌then◌else◌,
}
use shinzo_generator_client.Prelude.Heights.{store}
use shinzo_generator_client.Processor.Types.{BlockResult, ReorgSignal, QueryError}
use shinzo_generator_client.Processor.Run.{Run}

-- both hashes are known, and they differ
disagree : String → String → Bool
disagree known parent_hash =
    not (str_eq known "") && not (str_eq parent_hash "") && not (str_eq parent_hash known)

signal : String → BlockResult → ReorgSignal
signal orphan_hash next = record {
  rollback_from = next.block_num - 1;
  orphan_hash = orphan_hash;
  chain_hash = next.parent_hash;
}

-- `continuitySignal`; `last_checked_end` is `lastCheckedNum + 1`
unfoldable pub continuity_signal : ℕ → String → ℕ → String → BlockResult → Option ReorgSignal
unfolding disagree signal
continuity_signal run_start_block seed_hash last_checked_end last_checked_hash next =
    if next.block_num == run_start_block && disagree seed_hash next.parent_hash
    then some (signal seed_hash next)
    else if last_checked_end == next.block_num && disagree last_checked_hash next.parent_hash
    then some (signal last_checked_hash next)
    else none

-- `gapFallbackSignal`
unfoldable pub gap_fallback_signal : String → BlockResult → Option ReorgSignal
unfolding signal
gap_fallback_signal stored_hash next =
    if str_eq stored_hash "" || str_eq next.parent_hash "" || str_eq stored_hash next.parent_hash
    then none
    else some (signal stored_hash next)

-- What the gap check meets: whether there is a reorg handler, what its query for the stored hash
-- at the height below returns, and whether the run is cancelled by then.
pub record GapQuery : Type 0 where
  pub has_reorg_handler : Bool
  pub stored_hash : Result QueryError String
  pub cancelled_since : Bool

gap_reply : Bool → Result QueryError String → BlockResult → Option ReorgSignal
unfolding gap_fallback_signal
gap_reply cancelled (err e) next = none
gap_reply cancelled (ok stored) next = if cancelled then none else gap_fallback_signal stored next

-- `poppedGapSignal`
unfoldable pub popped_gap_signal : GapQuery → Run → BlockResult → Option ReorgSignal
unfolding gap_reply
popped_gap_signal q r next =
    let need_gap =
      not (str_eq next.parent_hash "")
      && q.has_reorg_handler
      && not (next.block_num == r.run_start_block)
      && r.last_checked_end == next.block_num
      && str_eq r.last_checked_hash "" in
    if need_gap then gap_reply (r.cancelled || q.cancelled_since) q.stored_hash next else none

-- `startReorgEpisode`
unfoldable pub start_reorg_episode : ReorgSignal → BlockResult → Run → Run
start_reorg_episode s parked r = record r {
  episode = some (record {
    base_height = parked.block_num;
    base_parent_hash = s.chain_hash;
    last_parked_hash = parked.hash;
    rewalks = 0;
    gap_refills = 0;
    stale_pinned = false;
    stale_top_height = 0;
    stale_top_hash = "";
  });
}

-- the check passed: the item goes to the store pool
pass_check : BlockResult → Run → Run
pass_check next r = record r {
  last_checked_end = suc next.block_num;
  last_checked_hash = next.hash;
  dispatched = next ∷ r.dispatched;
}

mark_hole : BlockResult → Run → Run
mark_hole next r = record r {
  last_checked_end = suc next.block_num;
  last_checked_hash = "";
  apply_holes = store next.block_num tt r.apply_holes;
}

unfoldable pub after_gap : Option ReorgSignal → BlockResult → Run → Run
unfolding start_reorg_episode pass_check
after_gap (some s) next r = start_reorg_episode s next r
after_gap none next r = pass_check next r

unfoldable pub after_continuity : Option ReorgSignal → GapQuery → BlockResult → Run → Run
unfolding after_gap popped_gap_signal
after_continuity (some s) q next r = start_reorg_episode s next r
after_continuity none q next r = after_gap (popped_gap_signal q r next) next r

-- `checkedForDispatch`
unfoldable pub checked_for_dispatch : GapQuery → BlockResult → Run → Run
unfolding after_continuity mark_hole continuity_signal
checked_for_dispatch q next r =
    if not next.success
    then mark_hole next r
    else after_continuity
        (continuity_signal r.run_start_block r.seed_hash r.last_checked_end r.last_checked_hash
          next)
        q next r
