-- ===== src/Ledger/Unposted.antt =====
-- The deferred trigger at the commit of a database transaction that has posted nothing.
use finstack.Base.{◌≡◌, refl, true, List, [], ◌∷◌}
use finstack.Base.Lists.{drop, length}
use finstack.Ledger.Store.{Ledger, commit_ok}

drop_all : {A : Type 0} (xs : List A) → drop (length xs) xs ≡ []
drop_all [] = refl
drop_all (x ∷ xs) = drop_all xs

-- Nothing was posted: the commit passes.
pub commit_ok-same :
    (before l : Ledger)
    → l.transactions ≡ before.transactions
    → l.entries ≡ before.entries
    → commit_ok before l ≡ true
unfolding commit_ok
commit_ok-same before l ts es =
    rw (ts, es, drop_all before.transactions, drop_all before.entries) refl
