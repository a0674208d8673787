-- ===== src/ThreadPool/Queue.antt =====
-- The linked queue of tasks is a FIFO list.
use os_study_code.Base.{
  ℕ, ◌≡◌, refl, ap, ◌∙◌, ◌≢◌, ◌⊎◌, inl, inr, Bool, true, false, ◌||◌, List, [], ◌∷◌, ◌++◌, arith,
  ◌==◌,
}
use os_study_code.ThreadPool.{
  Slot, head, next_of, Links, update, read, write, queue_init, enqueue, dequeue,
}

abbrev pub has : ℕ → List ℕ → Bool
has a [] = false
has a (x ∷ xs) = (a == x) || has a xs

-- From the slot the pointers lead through the distinct tasks of the list to NULL.
abbrev pub Chain : Links → Slot → List ℕ → Type 0
Chain l s [] = read l s ≡ 0
Chain l s (x ∷ xs) = (read l s ≡ x) × (x ≢ 0) × (has x xs ≡ false) × Chain l (next_of x) xs

-- The slot that holds the NULL.
abbrev pub tail_slot : Slot → List ℕ → Slot
tail_slot s [] = s
tail_slot s (x ∷ xs) = tail_slot (next_of x) xs

pub record IsQueue (l : Links) (xs : List ℕ) : Type 0 where
  pub chain : Chain l head xs
  pub last_at : l.last ≡ tail_slot head xs

-- Below a `next` field, only the `next` fields of the list matter.
Chain-frame :
    (l k : Links) (x : ℕ) (xs : List ℕ)
    → ((p : ℕ) → has p (x ∷ xs) ≡ true → k.next p ≡ l.next p)
    → Chain l (next_of x) xs
    → Chain k (next_of x) xs
Chain-frame l k x [] same c = ground (arith, same x)
Chain-frame l k x (y ∷ ys) same c =
    (ground (arith, same x), c.1, c.2, Chain-frame l k y ys (λ p h. same p (ground arith)) c.3)

tail_slot-next_of :
    (x : ℕ) (xs : List ℕ)
    → (z : ℕ) × (tail_slot (next_of x) xs ≡ next_of z) × (has z (x ∷ xs) ≡ true)
tail_slot-next_of x [] = (x, refl, ground arith)
tail_slot-next_of x (y ∷ ys) = let (z, e, h) = tail_slot-next_of y ys in (z, e, ground arith)

has-ne : (x z : ℕ) (xs : List ℕ) → has x xs ≡ false → has z xs ≡ true → z ≢ x
has-ne x z [] out h = cc
has-ne x z (y ∷ ys) out h = ground (arith, has-ne x z ys)

has-snoc : (x t : ℕ) (xs : List ℕ) → has x xs ≡ false → x ≢ t → has x (xs ++ (t ∷ [])) ≡ false
has-snoc x t [] out ne = ground arith
has-snoc x t (y ∷ ys) out ne = ground (arith, has-snoc x t ys)

-- The `next` field of a task that the write spares.
next-write :
    (l : Links) (x t : ℕ) (y : ℕ) (ys : List ℕ)
    → has x (y ∷ ys) ≡ false
    → (write l (tail_slot (next_of y) ys) t).next x ≡ l.next x
next-write l x t y ys out =
    let (z, e, h) = tail_slot-next_of y ys in
    let far : z ≢ x = has-ne x z (y ∷ ys) out h in rw e (ground arith)

-- The list with one task more, from a `next` field on.
Chain-snoc :
    (l : Links) (x t : ℕ) (xs : List ℕ)
    → t ≢ 0
    → l.next t ≡ 0
    → has t (x ∷ xs) ≡ false
    → has x xs ≡ false
    → Chain l (next_of x) xs
    → Chain (write l (tail_slot (next_of x) xs) t) (next_of x) (xs ++ (t ∷ []))
Chain-snoc l x t [] ne end out apart c = (ground arith, ne, refl, ground arith)
Chain-snoc l x t (y ∷ ys) ne end out apart c = (
  next-write l x t y ys apart ∙ c.0,
  c.1,
  has-snoc y t ys c.2 (ground arith),
  Chain-snoc l y t ys ne end (ground arith) c.2 c.3,
)

pub queue_init-IsQueue : (next : ℕ → ℕ) → IsQueue (queue_init next) []
unfolding queue_init
queue_init-IsQueue next = record { chain = refl; last_at = refl }

-- The `next` fields alone make a chain from a task on.
Chain-next :
    (l k : Links) (x : ℕ) (xs : List ℕ)
    → k.next ≡ l.next
    → Chain l (next_of x) xs
    → Chain k (next_of x) xs
Chain-next l k x xs e c = Chain-frame l k x xs (λ p h. ap (λ f. f p) e) c

first-write :
    (l : Links) (t x : ℕ) (xs : List ℕ) → (write l (tail_slot (next_of x) xs) t).first ≡ l.first
first-write l t x xs = let (z, e, h) = tail_slot-next_of x xs in rw e refl

-- Linking a task that is not NULL, has no successor and is not queued, through the pointer to the
-- last next field, appends it to the list that the pointers stand for.
pub enqueue-IsQueue :
    (l : Links) (t : ℕ) (xs : List ℕ)
    → IsQueue l xs
    → t ≢ 0
    → l.next t ≡ 0
    → has t xs ≡ false
    → IsQueue (enqueue l t) (xs ++ (t ∷ []))
unfolding enqueue
enqueue-IsQueue l t [] q ne end out =
    simp q.last_at (record { chain = (refl, ne, refl, end); last_at = refl })
enqueue-IsQueue l t (x ∷ xs) q ne end out =
    let c = q.chain in
    simp q.last_at (record {
      chain = (
        first-write l t x xs ∙ c.0,
        c.1,
        has-snoc x t xs c.2 (ground arith),
        Chain-next (write l (tail_slot (next_of x) xs) t)
            (record (write l (tail_slot (next_of x) xs) t) { last = next_of t }) x (xs ++ (t ∷ []))
            refl (Chain-snoc l x t xs ne end out c.2 c.3),
      );
      last_at = tail_slot-snoc (next_of x) t xs;
    })
  where
    tail_slot-snoc : (s : Slot) (t : ℕ) (xs : List ℕ) → next_of t ≡ tail_slot s (xs ++ (t ∷ []))
    tail_slot-snoc s t [] = refl
    tail_slot-snoc s t (y ∷ ys) = tail_slot-snoc (next_of y) t ys

-- Clearing the `next` field of a task that is not queued.
pub clear-IsQueue :
    (l : Links) (t : ℕ) (xs : List ℕ)
    → IsQueue l xs
    → has t xs ≡ false
    → IsQueue (record l { next = update l.next t 0 }) xs
clear-IsQueue l t [] q out = record { chain = q.chain; last_at = q.last_at }
clear-IsQueue l t (x ∷ xs) q out =
    let c = q.chain in
    record {
      chain = (
        c.0,
        c.1,
        c.2,
        Chain-frame l (record l { next = update l.next t 0 }) x xs (λ p h. clear_spares p h) c.3,
      );
      last_at = q.last_at;
    }
  where
    clear_spares : (p : ℕ) → has p (x ∷ xs) ≡ true → update l.next t 0 p ≡ l.next p
    clear_spares p h = let far = has-ne t p (x ∷ xs) out h in ground arith

-- Taking a task from a queue that is not empty yields the first of the list that the pointers
-- stand for, and leaves the rest.
pub dequeue-IsQueue :
    (l : Links) (x : ℕ) (xs : List ℕ)
    → IsQueue l (x ∷ xs)
    → ((dequeue l).0 ≡ x) × IsQueue (dequeue l).1 xs
unfolding dequeue
dequeue-IsQueue l x [] q =
    let c = q.chain in (c.0, record { chain = ground arith; last_at = ground arith })
dequeue-IsQueue l x (y ∷ ys) q =
    let c = q.chain in
    (
      c.0,
      record {
        chain =
            (ground (arith, c.0, c.3.0), c.3.1, c.3.2, Chain-next l (dequeue l).1 y ys refl c.3.3);
        last_at = ground (arith, c.0, c.3.0, c.3.1);
      },
    )

-- `first` is NULL exactly for the empty list.
pub first-IsQueue :
    (l : Links) (xs : List ℕ)
    → IsQueue l xs
    → ((l.first ≡ 0) × (xs ≡ [])) ⊎ ((x : ℕ) × (ys : List ℕ) × (l.first ≢ 0) × (xs ≡ x ∷ ys))
first-IsQueue l [] q = inl (q.chain, refl)
first-IsQueue l (x ∷ xs) q = inr (x, xs, ground (arith, q.chain.0, q.chain.1), refl)
