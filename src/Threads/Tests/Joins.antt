-- ===== src/Threads/Tests/Joins.antt =====
-- Joins and exits.
use simple_os_dev_projs.Base.{ℕ, ◌≡◌, refl, true, false, some, [], ◌∷◌, arith, ok}
use simple_os_dev_projs.Threads.Exit.{JoinVar, Waits, join_begin, keeps_waiting, join_end}
use simple_os_dev_projs.Threads.Paged.Leave.{paged_join_end}
use simple_os_dev_projs.Threads.Paged.Leave.Joined.{paged_join-exit}
use simple_os_dev_projs.Threads.Exit.Values.{exit_waits, join-exit}

abbrev joining : ℕ → ℕ → JoinVar
joining b t = record { block = b; done = 0; thread_waiting_for = t }

abbrev two_joins : Waits
two_joins = record { joins = joining 70 2 ∷ joining 60 3 ∷ []; retvals = [] }

abbrev no_joins : Waits
no_joins = record { joins = []; retvals = [] }

join-exit_example :
    (keeps_waiting 60 (join_begin 60 3 no_joins).joins ≡ true)
    × (keeps_waiting 60 (exit_waits 3 500 (join_begin 60 3 no_joins)).joins ≡ false)
    × (join_end true 60 3 (exit_waits 3 500 (join_begin 60 3 no_joins)) ≡ ok (some 500, no_joins))
join-exit_example = join-exit 60 3 500 no_joins (omega arith)

-- The join for thread 3 ends while the later one for thread 2 is in front of it.
paged_join-exit_example :
    let told = exit_waits 3 500 two_joins in
    (keeps_waiting 60 told.joins ≡ false)
    × (paged_join_end true 60 3 told
        ≡ (some 500, record { joins = joining 70 2 ∷ []; retvals = [] }))
paged_join-exit_example =
    paged_join-exit 60 3 500 (joining 70 2 ∷ []) [] [] (omega arith) refl (omega arith, tt)
