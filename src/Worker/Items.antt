-- ===== src/Worker/Items.antt =====
-- The items of the queue and of the workers, in every interleaving: they are the copies that were
-- made.
use k8s_eviction_controller.Prelude.{
  ℕ, suc, ◌<◌, ◌≤◌, ◌≡◌, ◌⊎◌, refl, sym, ◌∙◌, subst, inl, inr, String, Option, none, some, arith,
}
use k8s_eviction_controller.Cluster.{Err, M, Exit, returned, panicked}
use k8s_eviction_controller.Worker.{
  Obj, request_at, other, Key, key, bad_key, Workqueue, Pool, pool_of, enqueue, settle,
  process_item, shut_down,
}
use k8s_eviction_controller.Worker.Protocol.{processed, process_item-queue}
use k8s_eviction_controller.Worker.Concurrent.{
  idle, busy, stopped, update, IsThere, System, Step, take, finish, stop, deliver, cancel, Reach,
  start, later,
}
use k8s_eviction_controller.Worker.Activities.{update-cases, release-busy}

-- What client-go documents of its queue: Get gives an item that was added and not yet taken.
pub record GivesAdded (w : Workqueue) : Type 1 where
  pub Contains : w.Queue → Obj → Type 0
  pub get_some : (q : w.Queue) (obj : Obj) → (w.get q).0 ≡ some obj → Contains q obj
  pub get : (q : w.Queue) (x : Obj) → Contains (w.get q).1 x → Contains q x
  pub add : (q : w.Queue) (obj x : Obj) → Contains (w.add q obj) x → Contains q x ⊎ (x ≡ obj)
  pub add_rate_limited :
      (q : w.Queue) (obj x : Obj) → Contains (w.add_rate_limited q obj) x → Contains q x ⊎ (x ≡ obj)
  pub forget : (q : w.Queue) (obj x : Obj) → Contains (w.forget q obj) x → Contains q x
  pub done : (q : w.Queue) (obj x : Obj) → Contains (w.done q obj) x → Contains q x
  pub shut_down : (q : w.Queue) (x : Obj) → Contains (w.shut_down q) x → Contains q x

-- An item that points to a copy made at `base` or later.
abbrev pub IsCopy : ℕ → ℕ → Obj → Type 0
IsCopy base next (request_at a) = (base ≤ a) × (a < next)
IsCopy base next (other value) = Unit {0}

IsCopy-suc : (base next : ℕ) (x : Obj) → IsCopy base next x → IsCopy base (suc next) x
IsCopy-suc base next (request_at a) (lo, hi) = (lo, omega arith)
IsCopy-suc base next (other value) c = c

module _ (w : Workqueue) (gives : GivesAdded w) {W : Type 0} (reconcile : M W (Option Err)) where
  open gives use {Contains}

  abbrev Copies : ℕ → ℕ → w.Queue → Type 0
  Copies base next q = (x : Obj) → Contains q x → IsCopy base next x

  copy_or :
      {base next : ℕ} {q : w.Queue} (obj x : Obj)
      → Copies base next q
      → IsCopy base next obj
      → Contains q x ⊎ (x ≡ obj)
      → IsCopy base next x
  copy_or obj x copies own (inl c) = copies x c
  copy_or {base} {next} obj x copies own (inr e) = subst (IsCopy base next) (sym e) own

  settle-next :
      (a : ℕ) (k : String) (p : Pool w.Queue W) (exit : Exit W (Option Err))
      → (pool_of (settle w reconcile a k p exit)).next ≡ p.next
  unfolding settle
  settle-next a k p (returned none t) = refl
  settle-next a k p (returned (some e) t) = refl
  settle-next a k p (panicked t) = refl

  next_by_key :
      (a : ℕ) (p : Pool w.Queue W) (answer : Key)
      → w.key_of (p.heap a) ≡ answer
      → (pool_of (process_item w reconcile (request_at a) p)).next ≡ p.next
  unfolding process_item
  next_by_key a p (key k) known = rw (processed w reconcile a k p known) (settle-next a k p _)
  next_by_key a p (bad_key e) known = rw (known, process_item) refl

  process_item-next :
      (obj : Obj) (p : Pool w.Queue W) → (pool_of (process_item w reconcile obj p)).next ≡ p.next
  unfolding process_item
  process_item-next (other value) p = refl
  process_item-next (request_at a) p = next_by_key a p _ refl

  process_item-Copies :
      (base next : ℕ) (obj : Obj) (p : Pool w.Queue W)
      → IsCopy base next obj
      → Copies base next p.workqueue
      → Copies base next (pool_of (process_item w reconcile obj p)).workqueue
  process_item-Copies base next obj p own copies =
      let q = p.workqueue in
      process_item-queue w reconcile (Copies base next) obj p
        (λ x c. copies x (gives.forget q obj x (gives.done (w.forget q obj) obj x c)))
        (λ x c.
          copy_or obj x copies own
            (gives.add_rate_limited q obj x (gives.done (w.add_rate_limited q obj) obj x c)))
        (λ x c. copies x (gives.done q obj x c))

  -- The pool after an event, with what was queued or taken before.
  abbrev Grows : ℕ → Pool w.Queue W → Pool w.Queue W → Type 0
  Grows base p q =
      (base ≤ q.next)
      × Copies base q.next q.workqueue
      × ((x : Obj) → IsCopy base p.next x → IsCopy base q.next x)

  enqueue_by_key :
      (base a : ℕ) (p : Pool w.Queue W) (answer : Key)
      → w.key_of (p.heap a) ≡ answer
      → base ≤ p.next
      → Copies base p.next p.workqueue
      → Grows base p (enqueue w reconcile (request_at a) p)
  unfolding enqueue
  enqueue_by_key base a p (key k) known h copies =
      rw (known, enqueue)
        (
          omega arith,
          λ x c.
              copy_or (request_at p.next) x (λ y d. IsCopy-suc base p.next y (copies y d))
                (h, omega arith) (gives.add p.workqueue (request_at p.next) x c),
          IsCopy-suc base p.next,
        )
  enqueue_by_key base a p (bad_key e) known h copies = rw (known, enqueue) (h, copies, λ x c. c)

  enqueue-Grows :
      (base : ℕ) (obj : Obj) (p : Pool w.Queue W)
      → base ≤ p.next
      → Copies base p.next p.workqueue
      → Grows base p (enqueue w reconcile obj p)
  unfolding enqueue
  enqueue-Grows base (other value) p h copies = (h, copies, λ x c. c)
  enqueue-Grows base (request_at a) p h copies = enqueue_by_key base a p _ refl h copies

  -- `G` survives the pass on a copy, an event, and what the queue does by itself.
  pub record KeptByPool (base : ℕ) (G : Pool w.Queue W → Type 0) : Type 0 where
    pub item :
        (obj : Obj) (p : Pool w.Queue W)
        → IsCopy base p.next obj
        → G p
        → G (pool_of (process_item w reconcile obj p))
    pub event :
        (obj : Obj) (p : Pool w.Queue W)
        → IsThere obj p.next
        → base ≤ p.next
        → G p
        → G (enqueue w reconcile obj p)
    pub queue : (q : w.Queue) (p : Pool w.Queue W) → G p → G (record p { workqueue = q })

  -- All items are copies, and `G` holds.
  pub record Inv (base : ℕ) (G : Pool w.Queue W → Type 0) (s : System w reconcile) : Type 0 where
    pub good : G s.pool
    pub next : base ≤ s.pool.next
    pub queued : Copies base s.pool.next s.pool.workqueue
    pub taken : (i : ℕ) (x : Obj) → s.worker i ≡ busy x → IsCopy base s.pool.next x

  module _ (base : ℕ) (G : Pool w.Queue W → Type 0) (kept : KeptByPool base G) where
    finish-Inv :
        (s : System w reconcile) (i : ℕ) (obj : Obj)
        → s.worker i ≡ busy obj
        → Inv base G s
        → Inv base G (record {
          pool = pool_of (process_item w reconcile obj s.pool);
          worker = update s.worker i idle;
        })
    finish-Inv s i obj has inv =
        let own = inv.taken i obj has in
        let same = sym (process_item-next obj s.pool) in
        record {
          good = kept.item obj s.pool own inv.good;
          next = subst (λ n. base ≤ n) same inv.next;
          queued =
              subst (λ n. Copies base n (pool_of (process_item w reconcile obj s.pool)).workqueue)
                same (process_item-Copies base s.pool.next obj s.pool own inv.queued);
          taken = λ j x e.
              subst (λ n. IsCopy base n x) same
                (inv.taken j x (release-busy s.worker i idle j x (λ q. cc) e).1);
        }

    Step-Inv : {s t : System w reconcile} → Step w reconcile s t → Inv base G s → Inv base G t
    unfolding shut_down
    Step-Inv {s} (take i obj free got) inv = record {
      good = kept.queue _ s.pool inv.good;
      next = inv.next;
      queued = λ x c. inv.queued x (gives.get s.pool.workqueue x c);
      taken = λ j x e. elim (update-cases s.worker i (busy obj) j) [
        | inl (same, u) ↦
            let own : obj ≡ x = cc in
            subst (IsCopy base s.pool.next) own
              (inv.queued obj (gives.get_some s.pool.workqueue obj got))
        | inr (differ, u) ↦ inv.taken j x (sym u ∙ e)
      ];
    }
    Step-Inv {s} (finish i obj p has pass) inv =
        subst (λ r. Inv base G (record { pool = pool_of r; worker = update s.worker i idle })) pass
          (finish-Inv s i obj has inv)
    Step-Inv {s} (stop i free none_left) inv = record {
      good = kept.queue _ s.pool inv.good;
      next = inv.next;
      queued = λ x c. inv.queued x (gives.get s.pool.workqueue x c);
      taken = λ j x e. inv.taken j x (release-busy s.worker i stopped j x (λ q. cc) e).1;
    }
    Step-Inv {s} (deliver obj there) inv =
        let (next, queued, grows) = enqueue-Grows base obj s.pool inv.next inv.queued in
        record {
          good = kept.event obj s.pool there inv.next inv.good;
          next = next;
          queued = queued;
          taken = λ i x e. grows x (inv.taken i x e);
        }
    Step-Inv {s} cancel inv = record {
      good = kept.queue _ s.pool inv.good;
      next = inv.next;
      queued = λ x c. inv.queued x (gives.shut_down s.pool.workqueue x c);
      taken = inv.taken;
    }

  -- What holds of a pool whose queue is empty, and is kept, holds in every interleaving.
  pub Reach-kept :
      {p : Pool w.Queue W} {s : System w reconcile} (G : Pool w.Queue W → Type 0)
      → KeptByPool p.next G
      → ((x : Obj) → ¬ Contains p.workqueue x)
      → G p
      → Reach w reconcile p s
      → Inv p.next G s
  Reach-kept {p} G kept empty good start = record {
    good = good;
    next = omega arith;
    queued = λ x c. absurd (empty x c);
    taken = λ i x e. absurd (ground arith);
  }
  Reach-kept {p} G kept empty good (later r step) =
      Step-Inv p.next G kept step (Reach-kept G kept empty good r)
