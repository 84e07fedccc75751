-- ===== src/Skiplist/WriterSearch.antt =====
-- The search with which `pid_skiplist_insert` and `pid_skiplist_remove` begin.
use linux_kernel_code_projec.Base.{ℕ, zero, suc, ◌<◌, ◌≡◌, refl, some, List, [], arith, length}
use linux_kernel_code_projec.Store.{Addr, Heap, load_forward}
use linux_kernel_code_projec.Skiplist.{Skiplist, descend}
use linux_kernel_code_projec.Skiplist.Chain.{Entry, next_at, pred_at, All-left}
use linux_kernel_code_projec.Skiplist.View.{
  header_entry, IsList, Whole, Whole-Bottomed, lows, highs, lows-append-highs, highs-Above,
  length-lows,
}
use linux_kernel_code_projec.Skiplist.Search.{preds, descend-preds}
use linux_kernel_code_projec.Skiplist.Read.{start}
use linux_kernel_code_projec.Skiplist.Pred.{forward-pred_at}

-- The search of a writer: where it ends, and the whole of `update`.
pub search_preds :
    {h : Heap} {sl : Skiplist} {hdr : Addr} {xs : List Entry}
    → IsList h sl hdr xs
    → (key f : ℕ) → length xs < f
    → (descend f h key sl.level hdr []
        ≡ some (pred_at 0 hdr (lows key xs), preds sl.level hdr (lows key xs) []))
      × (load_forward h (pred_at 0 hdr (lows key xs)) 0 ≡ some (next_at 0 (highs key xs)))
search_preds {h} {sl} {hdr} {xs} v key f fuel = (
  go sl.level refl,
  forward-pred_at h 0 (highs key xs) (header_entry hdr) (lows key xs)
      (rw lows-append-highs v.readable.stored) (omega arith),
)
  where
    go :
        (n : ℕ)
        → sl.level ≡ n
        → descend f h key n hdr []
          ≡ some (pred_at 0 hdr (lows key xs), preds n hdr (lows key xs) [])
    go zero e = absurd (omega (arith, v.readable.level_pos))
    go (suc n) e =
        descend-preds h key (highs key xs) (highs-Above key xs v.readable.sorted) f n hdr
          (lows key xs) [] (start v.readable key n e)
          (Whole-Bottomed sl.level (lows key xs)
            (All-left (Whole sl.level) (lows key xs) (highs key xs) (rw lows-append-highs v.whole)))
          (omega (arith, length-lows key xs))
