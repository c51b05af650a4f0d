-- ===== src/Memory/Fault/Search.antt =====
-- The searches of pageFaultHandler over the page table.
use simple_os_dev_projs.Base.{
  ℕ, zero, suc, ◌+◌, ◌≤◌, ◌<◌, ◌≡◌, ◌≢◌, refl, sym, ap, ◌∙◌, ◌⊎◌, inl, inr, Bool, true, false,
  Bool-cases, Option, none, some, ◌==◌, Ends, ends, Ends-bind, arith, if_true, if_false, ℕ_discrete,
}
use simple_os_dev_projs.Memory.Pages.{PageNode, Table, Pager, Os}
use simple_os_dev_projs.Memory.Pages.Evict.{Numbered, count_set, evict_page-Evicted}
use simple_os_dev_projs.Memory.Pages.Swap.{
  Works, Served, swap_page-ok, swap_nodes_else, swap_file_grab-Served,
}
use simple_os_dev_projs.Memory.Fault.{
  first_where, is_away, is_free, set_bit, claim, choose_victim, bring_in,
}

some-injective : (i j : ℕ) → some i ≡ some j → i ≡ j
some-injective i j h = cc

pub first_where_sound :
    (test : PageNode → Bool) (r i : ℕ) (t : Table) (j : ℕ)
    → first_where test r i t ≡ some j
    → (test (t j) ≡ true) × (i ≤ j) × (j < i + r)
unfolding first_where
first_where_sound test zero i t j h = cc
first_where_sound test (suc r) i t j h = elim (Bool-cases (test (t i))) [
  | inl e ↦
      let same = some-injective i j (sym (if_true _ _ _ e) ∙ h) in
      ground (arith, ap (λ k. test (t k)) same)
  | inr e ↦ ground (arith, first_where_sound test r (suc i) t j (sym (if_false _ _ _ e) ∙ h))
]

first_where_complete :
    (test : PageNode → Bool) (r i : ℕ) (t : Table) (j : ℕ)
    → first_where test r i t ≡ none
    → i ≤ j
    → j < i + r
    → test (t j) ≡ false
unfolding first_where
first_where_complete test zero i t j h k l = ground arith
first_where_complete test (suc r) i t j h k l = elim (Bool-cases (test (t i))) [
  | inl e ↦ let found = sym (if_true _ _ _ e) ∙ h in cc
  | inr e ↦ elim (ℕ_discrete i j) [
    | yes same ↦ rw (sym same) e
    | no ne ↦
        first_where_complete test r (suc i) t j (sym (if_false _ _ _ e) ∙ h) (omega arith)
          (omega arith)
  ]
]

pub is_away_sound :
    (thread page : ℕ) (n : PageNode)
    → is_away thread page n ≡ true
    → (n.thread_id ≡ thread) × (n.ret_addr ≡ page)
unfolding is_away
is_away_sound thread page n h = ground arith

pub is_free_sound : (n : PageNode) → is_free n ≡ true → n.thread_id ≡ 0
unfolding is_free
is_free_sound n h = ground arith

pub is_free-false : (n : PageNode) → is_free n ≡ false → n.thread_id ≢ 0
unfolding is_free
is_free-false n h = ground arith

pub bring_in-Served :
    (os : Os) (thread at into victim : ℕ) (s : Pager)
    → Works os
    → at < 1600
    → victim < 1600
    → (s.table (1600 + into)).thread_id ≡ thread
    → Ends (Served thread at) (bring_in os at into victim s)
unfolding bring_in
bring_in-Served os thread at into victim s w la lv e = elim (Bool-cases (at == victim)) [
  | inl same ↦
      rw (if_true (at == victim) _ _ same) (swap_file_grab-Served os thread at into s w la e)
  | inr other ↦
      rw (if_false (at == victim) _ _ other, swap_page-ok os at victim 1 s w)
        (swap_file_grab-Served os thread at into _ w la
          (rw (swap_nodes_else at victim 1 (1600 + into) s.table (omega arith) (omega arith)) e))
]

-- What the searches and the second chance do to the pager does not change who owns a page.
pub record Kept (s u : Pager) : Type 0 where
  pub kept_thread : (i : ℕ) → (u.table i).thread_id ≡ (s.table i).thread_id
  pub kept_offset : (i : ℕ) → (u.table i).offset_p ≡ (s.table i).offset_p

pub record Chosen (s : Pager) (r : ℕ × Pager) : Type 0 where
  pub in_memory : r.0 < 1600
  pub kept : Kept s r.1

pub choose_victim-Chosen :
    (f thread : ℕ) (s : Pager)
    → Numbered s.table
    → s.cursor < 1600
    → count_set 1600 s.table < f
    → Ends (Chosen s) (choose_victim f thread s)
unfolding choose_victim
choose_victim-Chosen f thread s num c less =
    Ends-bind (evict_page-Evicted f thread s.table s.cursor num c less) (λ r v. ends (record {
      in_memory = v.victim_in_memory;
      kept = record {
        kept_thread = v.same_owners.same_thread;
        kept_offset = v.same_owners.same_offset;
      };
    }))

pub set_bit-Kept : (j : ℕ) (s : Pager) → Kept s (set_bit j s)
unfolding set_bit
set_bit-Kept j s = record { kept_thread = λ i. ground arith; kept_offset = λ i. ground arith }

pub set_bit_same : (j : ℕ) (s : Pager) → (set_bit j s).cursor ≡ s.cursor
unfolding set_bit
set_bit_same j s = refl

pub claim_self : (thread j : ℕ) (s : Pager) → ((claim thread j s).table j).thread_id ≡ thread
unfolding claim
claim_self thread j s = ground arith

pub claim_offset :
    (thread j i : ℕ) (s : Pager) → ((claim thread j s).table i).offset_p ≡ (s.table i).offset_p
unfolding claim
claim_offset thread j i s = ground arith

claim_home :
    (thread j i : ℕ) (s : Pager) → ((claim thread j s).table i).ret_addr ≡ (s.table i).ret_addr
unfolding claim
claim_home thread j i s = ground arith

claim_open : (thread j i : ℕ) (s : Pager) → (claim thread j s).is_open i ≡ s.is_open i
unfolding claim
claim_open thread j i s = refl

-- A search over the pages either finds one that passes the test, or none of them does.
pub searched :
    (test : PageNode → Bool) (r i : ℕ) (t : Table)
    → ((first_where test r i t ≡ none) × ((j : ℕ) → i ≤ j → j < i + r → test (t j) ≡ false))
      ⊎ ((j : ℕ) × (first_where test r i t ≡ some j) × (test (t j) ≡ true) × (i ≤ j) × (j < i + r))
searched test r i t = go (first_where test r i t) refl
  where
    go :
        (o : Option ℕ)
        → first_where test r i t ≡ o
        → ((first_where test r i t ≡ none) × ((j : ℕ) → i ≤ j → j < i + r → test (t j) ≡ false))
          ⊎ ((j : ℕ) × (first_where test r i t ≡ some j)
              × (test (t j) ≡ true)
              × (i ≤ j)
              × (j < i + r))
    go none e = inl (e, λ j. first_where_complete test r i t j e)
    go (some j) e = (let h = first_where_sound test r i t j e in inr (j, e, h.0, h.1, h.2))
