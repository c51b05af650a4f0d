-- ===== src/Threads/Create/Begin/Refuse.antt =====
-- Creations that malloc refuses, and the first creation over memory that is not clear.
use simple_os_dev_projs.Base.{
  ℕ, ◌+◌, ◌%◌, ◌^◌, ◌≡◌, ◌≢◌, ◌⊎◌, inl, inr, refl, ap, ◌∙◌, true, false, Bool-cases, Option, none,
  some, ok, fault, arith, Ends, ends, update, update_ne, ◌>>=◌,
}
use simple_os_dev_projs.Threads.State.{Ptr, null, Sched, load, set_next}
use simple_os_dev_projs.Threads.Create.{Fresh, Result, eagain, enqueue_new, new_node, create_finish}
use simple_os_dev_projs.Threads.Create.Begin.{
  Heads, Answers, Library, Outcome, refused, finished, opened, create_thread, open_library, create,
}

-- The globals that a call works on, once the first has set them up.
pub Ready : Library → Option Heads → Library → Type 0
Ready l h l' = (l' ≡ l) ⊎ ((l.made ≡ false) × ((g : Heads) × (h ≡ some g) × (l' ≡ opened g l)))

-- Something that the call needs is not given.
abbrev pub IsShort : Answers → Fresh → Library → Type 0
IsShort a m l =
    (a.context ≡ false)
    ⊎ ((a.stack ≡ false) ⊎ ((m.node ≡ null) ⊎ ((l.made ≡ false) × (a.heads ≡ none))))

-- A creation that fails at its last request: the number of the thread is taken for nothing.
pub Late : Fresh → Library → Result → Type 0
Late m l r =
    (m.node ≡ null)
    × (r.errno ≡ eagain)
    × (r.switch ≡ none)
    × (r.thread ≡ l.thread_count)
    × (r.thread_count ≡ (l.thread_count + 1) % 2 ^ 32)

pub Refusal : Option Heads → Fresh → Library → Outcome → Type 0
Refusal h m l (refused l') = Ready l h l'
Refusal h m l (finished r) = (l' : Library) × Ready l h l' × Late m l' r

create_finish-late :
    (f : ℕ) (m : Fresh) (p : Ptr) (n : ℕ) (s : Sched)
    → m.node ≡ null
    → create_finish f m p n s
      ≡ ok (record { errno = eagain; thread = n; thread_count = (n + 1) % 2 ^ 32; switch = none })
unfolding create_finish
create_finish-late f m p n s e = rw e refl

-- What the call asks for its thread.
ThreadShort : Answers → Fresh → Type 0
ThreadShort a m = (a.context ≡ false) ⊎ ((a.stack ≡ false) ⊎ (m.node ≡ null))

left_short :
    (a : Answers) (m : Fresh) → a.context ≡ true → a.stack ≡ true → ThreadShort a m → m.node ≡ null
unfolding ThreadShort
left_short a m on up short = ground arith

thread_short :
    (a : Answers) (m : Fresh) (l : Library) → l.made ≡ true → IsShort a m l → ThreadShort a m
unfolding ThreadShort
thread_short a m l made short = ground arith

short_after :
    (a : Answers) (m : Fresh) (l : Library) (g : Heads)
    → a.heads ≡ some g
    → IsShort a m l
    → ThreadShort a m
unfolding ThreadShort
short_after a m l g e short = ground arith

create_thread-refuses :
    (f : ℕ) (a : Answers) (m : Fresh) (p : Ptr) (l l' : Library)
    → a.block ≡ true
    → Ready l a.heads l'
    → ThreadShort a m
    → Ends (Refusal a.heads m l) (create_thread f a m p l')
unfolding create_thread Refusal Ready ThreadShort Late
create_thread-refuses f a m p l l' block ready short = elim (Bool-cases a.context) [
  | inr off ↦ rw off (ends ready)
  | inl on ↦ elim (Bool-cases a.stack) [
    | inr off ↦ rw (on, off) (ends ready)
    | inl up ↦
        let full = left_short a m on up short in
        rw (on, up, block, create_finish-late f m p l'.thread_count l'.sched full, ◌>>=◌)
          (ends (l', ready, (full, refl, refl, refl, refl)))
  ]
]

create-made :
    (f : ℕ) (a : Answers) (m : Fresh) (p : Ptr) (l : Library)
    → l.made ≡ true
    → create f a m p l ≡ create_thread f a m p l
unfolding create
create-made f a m p l made = ground arith

create-first :
    (f : ℕ) (a : Answers) (m : Fresh) (p : Ptr) (l : Library)
    → l.made ≡ false
    → a.link_stack ≡ true
    → create f a m p l ≡ open_library f a m p l a.heads
unfolding create
create-first f a m p l fresh link = ground arith

open_library-some :
    (f : ℕ) (a : Answers) (m : Fresh) (p : Ptr) (l : Library) (g : Heads)
    → a.count_mutex ≡ true
    → open_library f a m p l (some g) ≡ create_thread f a m p (opened g l)
unfolding open_library
open_library-some f a m p l g mutex = ground arith

open_library-refuses :
    (f : ℕ) (a : Answers) (m : Fresh) (p : Ptr) (l : Library)
    → l.made ≡ false
    → a.count_mutex ≡ true
    → a.block ≡ true
    → IsShort a m l
    → (h : Option Heads) → a.heads ≡ h
    → Ends (Refusal a.heads m l) (open_library f a m p l h)
unfolding open_library Refusal Ready
open_library-refuses f a m p l fresh mutex block short none e = ends (inl refl)
open_library-refuses f a m p l fresh mutex block short (some g) e =
    rw (open_library-some f a m p l g mutex) (
      create_thread-refuses f a m p l (opened g l) block (inr (fresh, (g, e, refl)))
        (short_after a m l g e short))

-- Where malloc gives the stack of the return link, the mutex of the count and the block of the
-- thread, but not the context, the stack or the node of the thread, or not the queues in the first
-- call, my_pthread_create returns without a switch. Before the block is there the globals are the
-- same, but that the first call can have set the queues up with the count 2; without the node it
-- returns EAGAIN, and the number of the thread is taken: the count is one higher.
pub create-refuses :
    (f : ℕ) (a : Answers) (m : Fresh) (p : Ptr) (l : Library)
    → a.link_stack ≡ true
    → a.count_mutex ≡ true
    → a.block ≡ true
    → IsShort a m l
    → Ends (Refusal a.heads m l) (create f a m p l)
unfolding Ready
create-refuses f a m p l link mutex block short = elim (Bool-cases l.made) [
  | inl made ↦
      rw (create-made f a m p l made)
        (create_thread-refuses f a m p l l block (inl refl) (thread_short a m l made short))
  | inr fresh ↦
      rw (create-first f a m p l fresh link)
        (open_library-refuses f a m p l fresh mutex block short a.heads refl)
]

enqueue_new-fault :
    (s : Sched) (p : Ptr)
    → s.queue0.head ≢ null
    → (s.queue0.tail ≡ null) ⊎ (s.cell s.queue0.tail ≡ none)
    → enqueue_new s p ≡ fault
unfolding enqueue_new set_next load
enqueue_new-fault s p front bad = ground arith

create_finish-fault :
    (f : ℕ) (m : Fresh) (p : Ptr) (n : ℕ) (s : Sched)
    → m.node ≢ null
    → s.queue0.head ≢ null
    → s.queue0.tail ≢ m.node
    → s.cell s.queue0.tail ≡ none
    → create_finish f m p n s ≡ fault
unfolding create_finish
create_finish-fault f m p n s ne front apart bad =
    let c = update s.cell m.node (some (new_node n m.old_next)) in
    let stuck : enqueue_new (record s { cell = c }) m.node ≡ fault =
      enqueue_new-fault (record s { cell = c }) m.node front
        (inr (update_ne s.cell m.node (some (new_node n m.old_next)) s.queue0.tail apart ∙ bad)) in
    rw stuck (ground arith)

create_thread-fault :
    (f : ℕ) (a : Answers) (m : Fresh) (p : Ptr) (l : Library)
    → a.context ≡ true
    → a.stack ≡ true
    → create_finish f m p l.thread_count l.sched ≡ fault
    → create_thread f a m p l ≡ fault
unfolding create_thread
create_thread-fault f a m p l context stack stuck = ground (arith, stuck)

-- The code does not clear the memory of the queues: where it holds a head and the tail is no node,
-- the first creation faults.
create-dirty :
    (f : ℕ) (a : Answers) (m : Fresh) (p : Ptr) (l : Library) (g : Heads)
    → l.made ≡ false
    → a.link_stack ≡ true
    → a.heads ≡ some g
    → a.count_mutex ≡ true
    → a.context ≡ true
    → a.stack ≡ true
    → m.node ≢ null
    → g.level0.head ≢ null
    → g.level0.tail ≢ m.node
    → l.sched.cell g.level0.tail ≡ none
    → create f a m p l ≡ fault
unfolding opened
create-dirty f a m p l g fresh link heads mutex context stack ne front apart bad =
    create-first f a m p l fresh link
    ∙ (ap (open_library f a m p l) heads
        ∙ (open_library-some f a m p l g mutex
            ∙ create_thread-fault f a m p (opened g l) context stack
                (create_finish-fault f m p 2 (opened g l).sched ne front apart bad)))
