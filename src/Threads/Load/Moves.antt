-- ===== src/Threads/Load/Moves.antt =====
-- The loops that move nodes to the running queue.
use mathlib.Core.Path.{subst, subst₂}
use mathlib.Core.List.{append_assoc, append-nil}
use simple_os_dev_projs.Base.{
  ◌≡◌, ◌≢◌, refl, sym, ◌∙◌, some, List, [], ◌∷◌, ◌++◌, arith, update, update_ne, ok, Ends, ends,
  Ends-bind, Ends-weaken, if◌then◌else◌, ◌==◌, length,
}
use simple_os_dev_projs.Threads.State.{Ptr, null, Node, Queue, Cells}
use simple_os_dev_projs.Threads.Chain.{
  Chain, Absent, Distinct, next_of-some, set_next-some, Absent-append, Distinct-append,
  Chain-append, Chain-frame,
}
use simple_os_dev_projs.Threads.Load.{Moving, move_one, move}
use simple_os_dev_projs.Threads.Load.Relink.{
  IsLast, Running, IsLast-append, IsLast-mem, last_node, Chain-relink, IsQueue,
}

-- Where the running queue runs on to: into the rest of the queue that was moved from last.
abbrev pub stop_after : List Ptr → Ptr → Ptr → Ptr
stop_after [] stop h = stop
stop_after (x ∷ xs) stop h = h

-- The nodes `us` have gone from the front of a queue to the end of the running queue.
pub record Moved (m : Moving) (stop : Ptr) (ys us vs : List Ptr) (m' : Moving) : Type 0 where
  pub running : Running m'.cell m'.run_queue (stop_after us stop m'.queue.head) (ys ++ us)
  pub queue : IsQueue m'.cell m'.queue vs
  pub head : m'.queue.head ≡ stop_after us m.queue.head m'.queue.head
  pub frame : (a : Ptr) → Absent a (ys ++ us) → m'.cell a ≡ m.cell a

IsQueue-tail :
    (c : Cells) (q : Queue) (n : Node) (x : Ptr) (xs : List Ptr)
    → IsLast q.tail (x ∷ xs)
    → Chain c null n.next xs
    → IsQueue c (record { head = n.next; tail = if n.next == null then null else q.tail }) xs
IsQueue-tail c q n x [] l h = (h, rw h)
IsQueue-tail c q n x (z ∷ zs) l (m, e, ne, at, rest) = ((m, e, ne, at, rest), ground arith)

abbrev without_head : Queue → Node → Queue
without_head q n = record { head = n.next; tail = if n.next == null then null else q.tail }

abbrev first : Moving → Node → Moving
first m n = record {
  cell = m.cell;
  run_queue = record { head = m.queue.head; tail = m.queue.head };
  queue = without_head m.queue n;
}

abbrev linked : Moving → Node → Cells
linked m t = update m.cell m.run_queue.tail (some (record t { next = m.queue.head }))

abbrev later : Moving → Node → Node → Moving
later m t n = record {
  cell = linked m t;
  run_queue = record { head = m.run_queue.head; tail = m.queue.head };
  queue = without_head m.queue n;
}

move_one-first :
    (m : Moving) (n : Node)
    → m.run_queue.head ≡ null
    → m.queue.head ≢ null
    → m.cell m.queue.head ≡ some n
    → move_one m ≡ ok (first m n)
unfolding move_one
move_one-first m n e ne at = ground (arith, next_of-some m.cell m.queue.head ne at)

move_one-later :
    (m : Moving) (t n : Node)
    → m.run_queue.head ≢ null
    → m.run_queue.tail ≢ null
    → m.cell m.run_queue.tail ≡ some t
    → m.queue.head ≢ null
    → linked m t m.queue.head ≡ some n
    → move_one m ≡ ok (later m t n)
unfolding move_one
move_one-later m t n ne last there front at = ground (
  arith,
  set_next-some m.cell m.run_queue.tail m.queue.head last there,
  next_of-some (linked m t) m.queue.head front at,
)

-- The first node of a run.
move_one-nil :
    (m : Moving) (stop x : Ptr) (xs : List Ptr)
    → m.run_queue.head ≡ null
    → IsQueue m.cell m.queue (x ∷ xs)
    → Ends (Moved m stop [] (x ∷ []) xs) (move_one m)
move_one-nil m stop x xs e ((n, p, ne, at, rest), l) =
    rw (move_one-first m n e (rw p ne) (rw p at)) (
      ends (record {
        running = ((n, p, ne, at, refl), p);
        queue = IsQueue-tail m.cell m.queue n x xs l rest;
        head = refl;
        frame = λ a out. refl;
      }))

-- The nodes of a list that end another are not its last.
apart : (t a : Ptr) (ys xs : List Ptr) → Distinct (ys ++ xs) → IsLast t ys → ¬ Absent a xs → a ≢ t
apart t a ys xs d l inside e =
    inside (subst (λ z. Absent z xs) (sym e) ((Distinct-append ys xs d).2 t (IsLast-mem t ys l)))

-- Another node, written behind the last.
move_one-cons :
    (m : Moving) (stop x y : Ptr) (xs ys : List Ptr)
    → Running m.cell m.run_queue stop (y ∷ ys)
    → IsQueue m.cell m.queue (x ∷ xs)
    → Distinct ((y ∷ ys) ++ x ∷ xs)
    → Ends (Moved m stop (y ∷ ys) (x ∷ []) xs) (move_one m)
move_one-cons m stop x y xs ys (h, l) ((n, p, ne, at, rest), l') d =
    rw
      (move_one-later m t n front not_null there (rw p ne)
        (subst (λ z. linked m t z ≡ some n) (sym p) kept))
      (ends (record {
        running = (
          Chain-append (linked m t) n.next m.queue.head m.run_queue.head (y ∷ ys) (x ∷ [])
              (Chain-relink m.cell stop m.run_queue.head m.run_queue.tail m.queue.head t (y ∷ ys) h
                parts.0 l there)
              (n, p, ne, kept, refl),
          subst (λ z. IsLast z (y ∷ ys ++ x ∷ [])) (sym p) (IsLast-append x (y ∷ ys)),
        );
        queue = IsQueue-tail (linked m t) m.queue n x xs l' (
            Chain-frame m.cell (linked m t) null n.next xs
              (λ a inside.
                update_ne m.cell m.run_queue.tail _ a
                  (apart m.run_queue.tail a (y ∷ ys) (x ∷ xs) d l (λ o. inside o.1)))
              rest);
        head = refl;
        frame = λ a out. update_ne m.cell m.run_queue.tail _ a (λ e.
            IsLast-mem m.run_queue.tail (y ∷ ys) l
              (subst (λ z. Absent z (y ∷ ys)) e ((Absent-append a (y ∷ ys) (x ∷ [])).0 out).0));
      }))
  where
    parts :
        Distinct (y ∷ ys)
        × Distinct (x ∷ xs)
        × ((a : Ptr) → ¬ Absent a (y ∷ ys) → Absent a (x ∷ xs))
    parts = Distinct-append (y ∷ ys) (x ∷ xs) d

    found : (t : Node) × (m.run_queue.tail ≢ null) × (m.cell m.run_queue.tail ≡ some t)
    found = last_node m.cell stop m.run_queue.head m.run_queue.tail (y ∷ ys) h l

    t : Node
    t = found.0

    not_null : m.run_queue.tail ≢ null
    not_null = found.1

    there : m.cell m.run_queue.tail ≡ some t
    there = found.2

    front : m.run_queue.head ≢ null
    front = rw h.1 h.2

    kept : linked m t x ≡ some n
    kept =
        update_ne m.cell m.run_queue.tail _ x
          (apart m.run_queue.tail x (y ∷ ys) (x ∷ xs) d l (λ o. o.0 refl))
        ∙ at

-- One round, whatever the running queue holds.
move_one-Moved :
    (m : Moving) (stop x : Ptr) (ys xs : List Ptr)
    → Running m.cell m.run_queue stop ys
    → IsQueue m.cell m.queue (x ∷ xs)
    → Distinct (ys ++ x ∷ xs)
    → Ends (Moved m stop ys (x ∷ []) xs) (move_one m)
move_one-Moved m stop x [] xs r q d = move_one-nil m stop x xs r q
move_one-Moved m stop x (y ∷ ys) xs r q d = move_one-cons m stop x y xs ys r q d

-- Where the running queue and one priority queue hold distinct nodes and share none, `length us`
-- rounds move the nodes `us` from the front of the queue to the end of the running queue, which
-- then runs on into the rest `vs` of that queue; other cells stay as they were.
pub move-Moved :
    (us : List Ptr) (m : Moving) (stop : Ptr) (ys vs : List Ptr)
    → Running m.cell m.run_queue stop ys
    → IsQueue m.cell m.queue (us ++ vs)
    → Distinct (ys ++ (us ++ vs))
    → Ends (Moved m stop ys us vs) (move (length us) m)
unfolding move
move-Moved [] m stop ys vs r q d =
    ends (record { running = rw append-nil r; queue = q; head = refl; frame = λ a out. refl })
move-Moved (u ∷ us) m stop ys vs r q d =
    Ends-bind (move_one-Moved m stop u ys (us ++ vs) r q d) λ m1 d1.
      Ends-weaken
        (move-Moved us m1 m1.queue.head (ys ++ u ∷ []) vs d1.running d1.queue
          (subst Distinct (sym (append_assoc ys (u ∷ []) (us ++ vs))) d))
        λ m2 d2. record {
          running = whole m1 m2 d2;
          queue = d2.queue;
          head = refl;
          frame = λ a out.
              d2.frame a (subst (Absent a) (sym (append_assoc ys (u ∷ []) us)) out)
              ∙ d1.frame a (early a out);
        }
  where
    whole :
        (m1 m2 : Moving)
        → Moved m1 m1.queue.head (ys ++ u ∷ []) us vs m2
        → Running m2.cell m2.run_queue m2.queue.head (ys ++ (u ∷ us))
    whole m1 m2 d2 =
        subst₂ (Running m2.cell m2.run_queue) (sym d2.head) (append_assoc ys (u ∷ []) us) d2.running

    early : (a : Ptr) → Absent a (ys ++ (u ∷ us)) → Absent a (ys ++ u ∷ [])
    early a out =
        let r = (Absent-append a ys (u ∷ us)).0 out in
        (Absent-append a ys (u ∷ [])).1 (r.0, (r.1.0, tt))
