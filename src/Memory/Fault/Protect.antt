-- ===== src/Memory/Fault/Protect.antt =====
-- What protectPages reaches: the pages of the thread in front of the first free one.
use mathlib.Core.Path.{subst}
use simple_os_dev_projs.Base.{
  ℕ, zero, suc, ◌+◌, ◌≤◌, ◌<◌, ◌≡◌, ◌≢◌, refl, sym, ap, ◌∙◌, true, ◌==◌, arith, if◌then◌else◌,
  if_true, if_false, ℕ_discrete, Bool-cases, inl, inr, ==_iff,
}
use simple_os_dev_projs.Memory.Pages.{Pager, Os}
use simple_os_dev_projs.Memory.Pages.Evict.{Numbered}
use simple_os_dev_projs.Memory.Fault.{protect_one, protect_from, protect_pages}
use simple_os_dev_projs.Memory.Fault.Close.{
  Unchanged, Unchanged-refl, Unchanged-trans, protect_one-Unchanged, protect_one-offset, Protected,
  protect_one-Protected, Unchanged-Protected,
}

pass : Os → (thread exiting i : ℕ) → Pager → Pager
pass os thread exiting i s =
    if (s.table i).thread_id == thread then protect_one os exiting i s else s

pass-Unchanged :
    (os : Os) (thread exiting i j : ℕ) (s : Pager)
    → (s.table i).offset_p ≡ i
    → j ≢ i
    → Unchanged j s (pass os thread exiting i s)
unfolding pass
pass-Unchanged os thread exiting i j s e ne = elim (Bool-cases ((s.table i).thread_id == thread)) [
  | inl b ↦
      rw (if_true ((s.table i).thread_id == thread) _ _ b)
        (protect_one-Unchanged os exiting i j s e ne)
  | inr b ↦ rw (if_false ((s.table i).thread_id == thread) _ _ b) (Unchanged-refl j s)
]

pass-offset :
    (os : Os) (thread exiting i j : ℕ) (s : Pager)
    → ((pass os thread exiting i s).table j).offset_p ≡ (s.table j).offset_p
unfolding pass
pass-offset os thread exiting i j s = elim (Bool-cases ((s.table i).thread_id == thread)) [
  | inl b ↦
      rw (if_true ((s.table i).thread_id == thread) _ _ b) (protect_one-offset os exiting i j s)
  | inr b ↦ rw (if_false ((s.table i).thread_id == thread) _ _ b) refl
]

pass-Numbered :
    (os : Os) (thread exiting i : ℕ) (s : Pager)
    → Numbered s.table
    → Numbered (pass os thread exiting i s).table
pass-Numbered os thread exiting i s num j l = pass-offset os thread exiting i j s ∙ num j l

pass-own :
    (os : Os) (thread exiting i : ℕ) (s : Pager)
    → os.mprotect i ≡ true
    → (s.table i).offset_p ≡ i
    → (s.table i).thread_id ≡ thread
    → Protected exiting i (pass os thread exiting i s)
unfolding pass
pass-own os thread exiting i s w e own =
    rw (if_true ((s.table i).thread_id == thread) _ _ ((==_iff _ _).1 own))
      (protect_one-Protected os exiting i s w e)

protect_from-stop :
    (os : Os) (thread exiting r i : ℕ) (s : Pager)
    → (s.table i).thread_id ≡ 0
    → protect_from os thread exiting (suc r) i s ≡ s
unfolding protect_from
protect_from-stop os thread exiting r i s h =
    if_true ((s.table i).thread_id == 0) _ _ ((==_iff _ _).1 h)

protect_from-next :
    (os : Os) (thread exiting r i : ℕ) (s : Pager)
    → (s.table i).thread_id ≢ 0
    → protect_from os thread exiting (suc r) i s
      ≡ protect_from os thread exiting r (suc i) (pass os thread exiting i s)
unfolding protect_from pass
protect_from-next os thread exiting r i s h =
    if_false ((s.table i).thread_id == 0) _ _ (ground (arith, h))

protect_from-zero :
    (os : Os) (thread exiting i : ℕ) (s : Pager) → protect_from os thread exiting 0 i s ≡ s
unfolding protect_from
protect_from-zero os thread exiting i s = refl

not_below : (i j : ℕ) → i ≤ j → ¬ (j < i + 0)
not_below i j h k = omega arith

module _ (os : Os) (thread exiting : ℕ) where
  -- The pages that lie in front of where the loop stands.
  protect_from-before :
      (r i : ℕ) (s : Pager) (j : ℕ)
      → Numbered s.table
      → i + r ≤ 1600
      → j < i
      → Unchanged j s (protect_from os thread exiting r i s)
  protect_from-before zero i s j num le l =
      rw (protect_from-zero os thread exiting i s) (Unchanged-refl j s)
  protect_from-before (suc r) i s j num le l = elim (ℕ_discrete (s.table i).thread_id 0) [
    | yes z ↦ rw (protect_from-stop os thread exiting r i s z) (Unchanged-refl j s)
    | no nz ↦ rw (protect_from-next os thread exiting r i s nz) (
        Unchanged-trans (pass-Unchanged os thread exiting i j s (num i (omega arith)) (omega arith))
          (protect_from-before r (suc i) _ j (pass-Numbered os thread exiting i s num) (omega arith)
            (omega arith)))
  ]

  protect_from-behind :
      (r i : ℕ) (s : Pager) (k j : ℕ)
      → Numbered s.table
      → i + r ≤ 1600
      → i ≤ k
      → k ≤ j
      → (s.table k).thread_id ≡ 0
      → Unchanged j s (protect_from os thread exiting r i s)
  protect_from-behind zero i s k j num le l m free =
      rw (protect_from-zero os thread exiting i s) (Unchanged-refl j s)
  protect_from-behind (suc r) i s k j num le l m free = elim (ℕ_discrete (s.table i).thread_id 0) [
    | yes z ↦ rw (protect_from-stop os thread exiting r i s z) (Unchanged-refl j s)
    | no nz ↦
        let ne = λ (q : k ≡ i). nz (ap (λ x. (s.table x).thread_id) (sym q) ∙ free) in
        let at = num i (omega arith) in
        rw (protect_from-next os thread exiting r i s nz) (
          Unchanged-trans (pass-Unchanged os thread exiting i j s at (omega (arith, ne))) (
            protect_from-behind r (suc i) _ k j (pass-Numbered os thread exiting i s num)
              (omega arith) (omega (arith, ne)) m
              (ap (λ n. n.thread_id) (pass-Unchanged os thread exiting i k s at ne).same_node
                ∙ free)))
  ]

  protect_from-reaches :
      (r i : ℕ) (s : Pager) (j : ℕ)
      → os.mprotect j ≡ true
      → Numbered s.table
      → i + r ≤ 1600
      → i ≤ j
      → j < i + r
      → ((m : ℕ) → i ≤ m → m ≤ j → (s.table m).thread_id ≢ 0)
      → (s.table j).thread_id ≡ thread
      → Protected exiting j (protect_from os thread exiting r i s)
  protect_from-reaches zero i s j w num le l m occupied own = elim (not_below i j l m) [ ]
  protect_from-reaches (suc r) i s j w num le l m occupied own =
      rw (protect_from-next os thread exiting r i s (occupied i (omega arith) l))
        (elim (ℕ_discrete i j) [
          | yes e ↦
              Unchanged-Protected
                (protect_from-before r (suc i) _ j (pass-Numbered os thread exiting i s num)
                  (omega arith) (omega arith))
                (rw e (pass-own os thread exiting j s w (num j (omega arith)) own))
          | no ne ↦
              let kept = λ (x : ℕ) (d : x ≢ i).
                ap (λ n. n.thread_id)
                  (pass-Unchanged os thread exiting i x s (num i (omega arith)) d).same_node in
              protect_from-reaches r (suc i) _ j w (pass-Numbered os thread exiting i s num)
                (omega arith) (omega arith) (omega arith)
                (λ x a b.
                  subst (λ y. y ≢ 0) (sym (kept x (omega arith))) (occupied x (omega arith) b))
                (kept j (omega arith) ∙ own)
        ])

  protect_pages_pager :
      (s : Pager) (left : ℕ) (counts : ℕ → ℕ)
      → (protect_pages os thread exiting s left counts).0 ≡ protect_from os thread exiting 1600 0 s
  unfolding protect_pages
  protect_pages_pager s left counts = elim (Bool-cases (exiting == 1)) [
    | inl b ↦ rw (if_true (exiting == 1) _ _ b) refl
    | inr b ↦ rw (if_false (exiting == 1) _ _ b) refl
  ]

  -- Where the page nodes are numbered and the page can be protected, a page of the thread is
  -- closed, and for an exiting thread blank, nobody's and at its own place, if no page from the
  -- first one up to it is free.
  pub protect_pages-Protected :
      (s : Pager) (left : ℕ) (counts : ℕ → ℕ) (j : ℕ)
      → os.mprotect j ≡ true
      → Numbered s.table
      → j < 1600
      → ((m : ℕ) → m ≤ j → (s.table m).thread_id ≢ 0)
      → (s.table j).thread_id ≡ thread
      → Protected exiting j (protect_pages os thread exiting s left counts).0
  protect_pages-Protected s left counts j w num l occupied own =
      rw (protect_pages_pager s left counts) (
        protect_from-reaches 1600 0 s j w num (omega arith) (omega arith) (omega arith)
          (λ m _ b. occupied m b) own)

  -- Where the page nodes are numbered, pages from the first free page on are not reached, whoever
  -- owns them: their node, their bytes and their protection stay as they were.
  pub protect_pages-Unchanged :
      (s : Pager) (left : ℕ) (counts : ℕ → ℕ) (k j : ℕ)
      → Numbered s.table
      → (s.table k).thread_id ≡ 0
      → k ≤ j
      → Unchanged j s (protect_pages os thread exiting s left counts).0
  protect_pages-Unchanged s left counts k j num free le =
      rw (protect_pages_pager s left counts)
        (protect_from-behind 1600 0 s k j num (omega arith) (omega arith) le free)
