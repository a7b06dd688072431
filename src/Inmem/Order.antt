-- ===== src/Inmem/Order.antt =====
-- What inmem's Enumerate offers.
use terraform_cloudrun_glue.Base.{
  ◌≡◌, ap, true, false, List, map, ℤ, Text, keep, arith, top_loop_lem, IsTop, take-sort_by-IsTop,
  IsWeakOrder,
}
use terraform_cloudrun_glue.Inmem.{Wq, QueueItem, ranks_before, is_ready, to_queued_key, enumerate}

ranks_before-asym : (x y : Text × QueueItem) → ranks_before x y ≡ true → ranks_before y x ≡ false
unfolding ranks_before
ranks_before-asym (_, a) (_, b) h = ground arith

ranks_before_trans :
    (x y z : Text × QueueItem)
    → ranks_before y x ≡ false
    → ranks_before z y ≡ false
    → ranks_before z x ≡ false
unfolding ranks_before
ranks_before_trans (_, a) (_, b) (_, c) h k = ground arith

pub ranks_before-IsWeakOrder : IsWeakOrder ranks_before
ranks_before-IsWeakOrder = record { asym = ranks_before-asym; trans = ranks_before_trans }

-- The keys that Enumerate offers are, in order of rank, the `limit` best of the keys that are due
-- (all of them, if there are fewer): the incremental sorting and cutting loses no better key.
pub enumerate-IsTop :
    (now : ℤ) (w : Wq)
    → (top : List (Text × QueueItem)) × ((enumerate now w).1 ≡ map to_queued_key top)
      × IsTop ranks_before w.limit (keep (is_ready now) w.queue) top
unfolding enumerate
enumerate-IsTop now w = (
  _,
  ap (map to_queued_key) (top_loop_lem ranks_before w.limit ranks_before-IsWeakOrder _),
  take-sort_by-IsTop ranks_before ranks_before-IsWeakOrder w.limit (keep (is_ready now) w.queue),
)
