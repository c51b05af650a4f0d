-- ===== src/Memory/Fault/Close.antt =====
-- One page that protectPages closes, and the pages that it leaves alone.
use simple_os_dev_projs.Base.{
  ℕ, ◌≡◌, ◌≢◌, refl, ap, ◌∙◌, Bool, true, false, ◌==◌, arith, if◌then◌else◌, if_true, if_false,
  update, update_ne, Bool-cases, inl, inr,
}
use simple_os_dev_projs.Memory.Pages.{Pager, Os, home}
use simple_os_dev_projs.Memory.Fault.{release, protect_one}

-- What is left of the page with number `j`.
pub record Unchanged (j : ℕ) (s u : Pager) : Type 0 where
  pub same_node : u.table j ≡ s.table j
  pub same_frame : u.frames j ≡ s.frames j
  pub same_open : u.is_open j ≡ s.is_open j

pub Unchanged-refl : (j : ℕ) (s : Pager) → Unchanged j s s
Unchanged-refl j s = record { same_node = refl; same_frame = refl; same_open = refl }

pub Unchanged-trans : {j : ℕ} {s u v : Pager} → Unchanged j s u → Unchanged j u v → Unchanged j s v
Unchanged-trans h k = record {
  same_node = k.same_node ∙ h.same_node;
  same_frame = k.same_frame ∙ h.same_frame;
  same_open = k.same_open ∙ h.same_open;
}

flip : (b : Bool) (f : ℕ → Bool) (i j : ℕ) → j ≢ i → (if b then update f i false else f) j ≡ f j
flip true f i j ne = update_ne f i false j ne
flip false f i j ne = refl

flop : (b : Bool) (f : ℕ → Bool) (i j : ℕ) → j ≢ i → (if b then update f i true else f) j ≡ f j
flop true f i j ne = update_ne f i true j ne
flop false f i j ne = refl

release-Unchanged :
    (i j : ℕ) (s : Pager) → (s.table i).offset_p ≡ i → j ≢ i → Unchanged j s (release i s)
unfolding release
release-Unchanged i j s e ne = record {
  same_node = update_ne s.table i _ j ne;
  same_frame = rw e (update_ne s.frames i _ j ne);
  same_open = refl;
}

release_if :
    (exiting i j : ℕ) (s : Pager)
    → (s.table i).offset_p ≡ i
    → j ≢ i
    → Unchanged j s (if exiting == 1 then release i s else s)
release_if exiting i j s e ne = elim (Bool-cases (exiting == 1)) [
  | inl b ↦ rw (if_true (exiting == 1) _ _ b) (release-Unchanged i j s e ne)
  | inr b ↦ rw (if_false (exiting == 1) _ _ b) (Unchanged-refl j s)
]

pub protect_one-Unchanged :
    (os : Os) (exiting i j : ℕ) (s : Pager)
    → (s.table i).offset_p ≡ i
    → j ≢ i
    → Unchanged j s (protect_one os exiting i s)
unfolding protect_one
protect_one-Unchanged os exiting i j s e ne =
    let page = (s.table i).offset_p in
    let s1 = record s {
      is_open = if os.mprotect page then update s.is_open page true else s.is_open;
    } in
    let k = release_if exiting i j s1 e ne in
    let np = λ (q : j ≡ page). ne (q ∙ e) in
    record {
      same_node = k.same_node;
      same_frame = k.same_frame;
      same_open =
          flip (os.mprotect page) _ page j np
          ∙ k.same_open
          ∙ flop (os.mprotect page) s.is_open page j np;
    }

release_if_offset :
    (exiting i j : ℕ) (s : Pager)
    → ((if exiting == 1 then release i s else s).table j).offset_p ≡ (s.table j).offset_p
unfolding release
release_if_offset exiting i j s = elim (Bool-cases (exiting == 1)) [
  | inl b ↦ rw (if_true (exiting == 1) _ _ b) (ground arith)
  | inr b ↦ rw (if_false (exiting == 1) _ _ b) refl
]

pub protect_one-offset :
    (os : Os) (exiting i j : ℕ) (s : Pager)
    → ((protect_one os exiting i s).table j).offset_p ≡ (s.table j).offset_p
unfolding protect_one
protect_one-offset os exiting i j s = release_if_offset exiting i j _

-- The page of the thread is closed, and with `exiting` it is nobody's and blank.
pub record Protected (exiting j : ℕ) (u : Pager) : Type 0 where
  pub is_closed : u.is_open j ≡ false
  pub is_released : exiting ≡ 1 → (u.table j).thread_id ≡ 0
  pub is_reset : exiting ≡ 1 → (u.table j).ret_addr ≡ home
  pub is_blank : exiting ≡ 1 → (b : ℕ) → u.frames j b ≡ 0

pub protect_one-Protected :
    (os : Os) (exiting i : ℕ) (s : Pager)
    → os.mprotect i ≡ true
    → (s.table i).offset_p ≡ i
    → Protected exiting i (protect_one os exiting i s)
unfolding protect_one release
protect_one-Protected os exiting i s w e =
    rw (e, w)
      (record {
        is_closed = ground arith;
        is_released = λ x. ground arith;
        is_reset = λ x. ground arith;
        is_blank = λ x b. ground arith;
      })

pub Unchanged-Protected :
    {exiting j : ℕ} {s u : Pager} → Unchanged j s u → Protected exiting j s → Protected exiting j u
Unchanged-Protected h p = record {
  is_closed = h.same_open ∙ p.is_closed;
  is_released = λ x. ap (λ n. n.thread_id) h.same_node ∙ p.is_released x;
  is_reset = λ x. ap (λ n. n.ret_addr) h.same_node ∙ p.is_reset x;
  is_blank = λ x b. ap (λ g. g b) h.same_frame ∙ p.is_blank x b;
}
