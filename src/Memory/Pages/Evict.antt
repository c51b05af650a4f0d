-- ===== src/Memory/Pages/Evict.antt =====
-- The second chance of evictPage: it ends, and what it leaves of the table.
use simple_os_dev_projs.Base.{
  ◌≤◌, ℕ, zero, suc, ◌+◌, ◌<◌, ◌≡◌, ◌≢◌, refl, inl, inr, true, false, Bool-cases, ok, ◌==◌, ==_iff,
  Ends, ends, arith, if◌then◌else◌, if_true, if_false, ◌∙◌, ℕ_discrete, Ends-weaken, ap, sym,
}
use simple_os_dev_projs.Memory.Pages.{Table, advance, skip_own, clear_bit, evict_page, Choice}

-- The nodes of the pages in memory carry their own number.
abbrev pub Numbered : Table → Type 0
Numbered t = (i : ℕ) → i < 1600 → (t i).offset_p ≡ i

-- How many of the first `n` pages have their reference bit set.
unfoldable pub count_set : ℕ → Table → ℕ
count_set zero t = 0
count_set (suc n) t = (if (t n).reference_bit == 1 then 1 else 0) + count_set n t

-- Two tables that differ in reference bits at most.
pub record SameOwners (t u : Table) : Type 0 where
  pub same_thread : (i : ℕ) → (u i).thread_id ≡ (t i).thread_id
  pub same_offset : (i : ℕ) → (u i).offset_p ≡ (t i).offset_p
  pub same_home : (i : ℕ) → (u i).ret_addr ≡ (t i).ret_addr

-- The victim is a page in memory whose bit is clear, and only bits were cleared on the way.
pub record Evicted (t : Table) (r : Choice) : Type 0 where
  pub victim_in_memory : r.victim < 1600
  pub victim_unset : (r.left r.victim).reference_bit ≢ 1
  pub same_owners : SameOwners t r.left
  pub cursor_in_memory : r.hand < 1600

clear_bit-SameOwners : (t : Table) (p : ℕ) → SameOwners t (clear_bit t p)
unfolding clear_bit
clear_bit-SameOwners t p = record {
  same_thread = λ i. ground (arith);
  same_offset = λ i. ground (arith);
  same_home = λ i. ground (arith);
}

SameOwners-trans : {t u v : Table} → SameOwners t u → SameOwners u v → SameOwners t v
SameOwners-trans h k = record {
  same_thread = λ i. k.same_thread i ∙ h.same_thread i;
  same_offset = λ i. k.same_offset i ∙ h.same_offset i;
  same_home = λ i. k.same_home i ∙ h.same_home i;
}

pub SameOwners-refl : {t : Table} → SameOwners t t
SameOwners-refl = record { same_thread = λ i. refl; same_offset = λ i. refl; same_home = λ i. refl }

pub SameOwners-Numbered : {t u : Table} → SameOwners t u → Numbered t → Numbered u
SameOwners-Numbered s h i k = s.same_offset i ∙ h i k

advance-bound : (t : Table) (p : ℕ) → Numbered t → p < 1600 → advance t p < 1600
unfolding advance
advance-bound t p h k = ground (arith, h p k)

skip_own-bound :
    (thread : ℕ) (t : Table) (p : ℕ) → Numbered t → p < 1600 → skip_own thread t p < 1600
unfolding skip_own
skip_own-bound thread t p h k = ground (arith, advance-bound t p h k)

count_set-on :
    (n : ℕ) (t : Table) → (t n).reference_bit ≡ 1 → count_set (suc n) t ≡ suc (count_set n t)
unfolding count_set
count_set-on n t h = ground arith

count_set-off : (n : ℕ) (t : Table) → (t n).reference_bit ≢ 1 → count_set (suc n) t ≡ count_set n t
unfolding count_set
count_set-off n t h = ground arith

count_set-eq :
    (n : ℕ) (t u : Table)
    → (u n).reference_bit ≡ (t n).reference_bit
    → count_set n u ≡ count_set n t
    → count_set (suc n) u ≡ count_set (suc n) t
unfolding count_set
count_set-eq n t u h k = rw (h, k) refl

pub count_set-ext :
    (n : ℕ) (t u : Table)
    → ((i : ℕ) → i < n → (u i).reference_bit ≡ (t i).reference_bit)
    → count_set n u ≡ count_set n t
unfolding count_set
count_set-ext zero t u h = refl
count_set-ext (suc n) t u h =
    count_set-eq n t u (h n (omega arith)) (count_set-ext n t u (λ i k. h i (omega arith)))

count_set-step :
    (n : ℕ) (t u : Table)
    → (u n).reference_bit ≡ (t n).reference_bit
    → suc (count_set n u) ≡ count_set n t
    → suc (count_set (suc n) u) ≡ count_set (suc n) t
unfolding count_set
count_set-step n t u h k = rw h (omega (arith, k))

clear_bit_self : (t : Table) (p : ℕ) → (clear_bit t p p).reference_bit ≡ 0
unfolding clear_bit
clear_bit_self t p = ground arith

clear_bit_ne : (t : Table) (p i : ℕ) → i ≢ p → (clear_bit t p i).reference_bit ≡ (t i).reference_bit
unfolding clear_bit
clear_bit_ne t p i h = ground arith

count_set-clear_bit :
    (n : ℕ) (t : Table) (p : ℕ)
    → p < n
    → (t p).reference_bit ≡ 1
    → suc (count_set n (clear_bit t p)) ≡ count_set n t
count_set-clear_bit zero t p h e = omega arith
count_set-clear_bit (suc n) t p h e = elim (ℕ_discrete n p) [
  | yes same ↦
      ap suc (
        count_set-off n (clear_bit t p) (rw (same, clear_bit_self t p) (omega arith))
        ∙ count_set-ext n t (clear_bit t p) (λ i k. clear_bit_ne t p i (omega arith)))
      ∙ sym (count_set-on n t (rw same e))
  | no ne ↦
      count_set-step n t (clear_bit t p) (clear_bit_ne t p n ne)
        (count_set-clear_bit n t p (omega arith) e)
]

count_set-none : (t : Table) → count_set 0 t ≤ 0
unfolding count_set
count_set-none t = omega arith

pub count_set-le : (n : ℕ) (t : Table) → count_set n t ≤ n
count_set-le zero t = count_set-none t
count_set-le (suc n) t = elim (ℕ_discrete (t n).reference_bit 1) [
  | yes e ↦ omega (arith, count_set-on n t e, count_set-le n t)
  | no ne ↦ omega (arith, count_set-off n t ne, count_set-le n t)
]

test_false : (b : ℕ) → (b == 1) ≡ false → b ≢ 1
test_false b e = ground arith

evict_page-unset :
    (f thread : ℕ) (t : Table) (p : ℕ)
    → ((t (skip_own thread t p)).reference_bit == 1) ≡ false
    → evict_page (suc f) thread t p
      ≡ ok (record {
        victim = (t (skip_own thread t p)).offset_p;
        left = t;
        hand = advance t (skip_own thread t p);
      })
unfolding evict_page
evict_page-unset f thread t p h = if_false _ _ _ h

evict_page-set :
    (f thread : ℕ) (t : Table) (p : ℕ)
    → ((t (skip_own thread t p)).reference_bit == 1) ≡ true
    → evict_page (suc f) thread t p
      ≡ evict_page f thread
          (clear_bit t (skip_own thread t p))
          (advance (clear_bit t (skip_own thread t p)) (skip_own thread t p))
unfolding evict_page
evict_page-set f thread t p h = if_true _ _ _ h

-- Where the page nodes are numbered and the hand is on a page in memory, one round more than there
-- are pages in memory whose reference bit is set is enough for the second chance to choose a page.
-- The page is in memory, its bit is clear, no page has changed its owner or its home, and the hand
-- is on a page in memory again.
pub evict_page-Evicted :
    (f thread : ℕ) (t : Table) (p : ℕ)
    → Numbered t
    → p < 1600
    → count_set 1600 t < f
    → Ends (Evicted t) (evict_page f thread t p)
evict_page-Evicted zero thread t p h k less = ground arith
evict_page-Evicted (suc f) thread t p h k less =
    let q = skip_own thread t p in
    let u = clear_bit t q in
    let bq = skip_own-bound thread t p h k in
    let hu = SameOwners-Numbered (clear_bit-SameOwners t q) h in
    elim (Bool-cases ((t q).reference_bit == 1)) [
      | inl e ↦ rw (evict_page-set f thread t p e) (
          Ends-weaken
            (evict_page-Evicted f thread u (advance u q) hu (advance-bound u q hu bq)
              (ground (arith, count_set-clear_bit 1600 t q bq ((==_iff _ _).0 e))))
            (λ r v. record {
              victim_in_memory = v.victim_in_memory;
              victim_unset = v.victim_unset;
              same_owners = SameOwners-trans (clear_bit-SameOwners t q) v.same_owners;
              cursor_in_memory = v.cursor_in_memory;
            }))
      | inr e ↦ rw (evict_page-unset f thread t p e) (
          ends (record {
            victim_in_memory = omega (arith, h q bq, bq);
            victim_unset = rw (h q bq) (test_false ((t q).reference_bit) e);
            same_owners = SameOwners-refl;
            cursor_in_memory = advance-bound t q h bq;
          }))
    ]

skip_own-next :
    (thread p : ℕ) (t : Table)
    → Numbered t
    → suc p < 1600
    → (t p).thread_id ≡ thread
    → skip_own thread t p ≡ suc p
unfolding skip_own advance
skip_own-next thread p t num l own = ground (arith, num p (omega arith))

-- Where the page nodes are numbered, the hand stands on a page of the running thread, not the
-- last, and the next page is the thread's too and has not been used since, that page is the
-- victim: the thread loses a page of its own.
pub evict_page-own :
    (f thread p : ℕ) (t : Table)
    → Numbered t
    → suc p < 1600
    → (t p).thread_id ≡ thread
    → (t (suc p)).thread_id ≡ thread
    → (t (suc p)).reference_bit ≡ 0
    → Ends
        (λ r. (r.victim ≡ suc p) × ((r.left r.victim).thread_id ≡ thread))
        (evict_page (suc f) thread t p)
evict_page-own f thread p t num l own next_own unset =
    rw
      (
        evict_page-unset f thread t p (rw (skip_own-next thread p t num l own, unset) refl),
        skip_own-next thread p t num l own,
        num (suc p) l,
      )
      (ends (refl, next_own))
