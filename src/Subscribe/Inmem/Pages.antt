-- ===== src/Subscribe/Inmem/Pages.antt =====
-- subscribe/infrastructure/inmem/inmem.go: the page that `Receipts.List` cuts out.
use payme_mock.Base.{◌≡◌, ℕ, suc, List, arith}
use payme_mock.Base.Int.{pos, negsuc}
use payme_mock.Base.Text.{take, drop}
use payme_mock.Base.Lengths.{take_all, drop_all}
use payme_mock.Kernel.Effect.{Error, ok, err}
use payme_mock.Subscribe.Receipt.{Receipt}
use payme_mock.Subscribe.Inmem.{page}

-- A page of a positive count at an offset is the first receipts, as many as were asked for, of
-- those after the offset: also where fewer are left, and where none are. At a negative offset the
-- code panics, whatever the count and the receipts.
pub page_lem :
    (count k : ℕ) (matched : List Receipt)
    → (page (pos (suc count)) (pos k) matched ≡ ok (take (suc count) (drop k matched)))
      × (page (pos (suc count)) (negsuc k) matched ≡ err (Error.other "slice bounds out of range"))
unfolding page
page_lem count k matched =
    (ground (arith, drop_all k matched, take_all (suc count) (drop k matched)), ground arith)
