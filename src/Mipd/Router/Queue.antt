-- ===== src/Mipd/Router/Queue.antt =====
-- The forward queue as a first-in first-out queue of packages.
use in4230_mip.Prelude.{
  ℕ, ◌≡◌, refl, sym, ap, ◌∙◌, Option, none, some, List, [], ◌∷◌, ◌++◌, ◌>>=◌, last?, drop_last,
}
use in4230_mip.Commons.LinkedList.{LinkedList}
use in4230_mip.Mipd.Packaging.{MipPackage}
use in4230_mip.Mipd.Router.{ForwardQueueEntry, queue_create, queue_push, queue_pop}

-- an operation on the queue, a push with the reading of the clock
pub data QueueOp : Type 0 where
  send : ℕ → MipPackage → QueueOp
  receive : QueueOp

-- What the pops of a sequence of operations return: of the code's queue, and of a plain queue whose
-- front is the head of a list.
module _ (Q : LinkedList ForwardQueueEntry) where
  pub popped : List QueueOp → Q.Handle → List (Option MipPackage)
  popped [] q = []
  popped (send now p ∷ ops) q = popped ops (queue_push Q now q p)
  popped (receive ∷ ops) q = (queue_pop Q q).0 ∷ popped ops (queue_pop Q q).1

unfoldable pub fifo : List QueueOp → List MipPackage → List (Option MipPackage)
fifo [] ps = []
fifo (send now p ∷ ops) ps = fifo ops (ps ++ p ∷ [])
fifo (receive ∷ ops) [] = none ∷ fifo ops []
fifo (receive ∷ ops) (p ∷ ps) = some p ∷ fifo ops ps

-- the packages waiting, the oldest first
pending : List ForwardQueueEntry → List MipPackage
pending [] = []
pending (e ∷ es) = pending es ++ e.p ∷ []

package_of : Option ForwardQueueEntry → Option MipPackage
package_of o = do entry ← o; some entry.p

-- Of a list that is not empty, the last element is the front of the queue.
pending_front :
    (e : ForwardQueueEntry) (es : List ForwardQueueEntry)
    → (p : MipPackage) × (ps : List MipPackage) × (pending (e ∷ es) ≡ p ∷ ps)
      × (package_of (last? (e ∷ es)) ≡ some p)
      × (pending (drop_last (e ∷ es)) ≡ ps)
unfolding pending package_of
pending_front e [] = (e.p, [], refl, refl, refl)
pending_front e (f ∷ es) =
    let front = pending_front f es in
    (
      front.0,
      front.1 ++ e.p ∷ [],
      ap (λ ps. ps ++ e.p ∷ []) front.2,
      front.3,
      ap (λ ps. ps ++ e.p ∷ []) front.4,
    )

-- A pop of the front, as a step of the plain queue.
fifo-receive :
    (ops : List QueueOp) (es : List ForwardQueueEntry)
    → fifo (receive ∷ ops) (pending es) ≡ package_of (last? es) ∷ fifo ops (pending (drop_last es))
unfolding fifo pending package_of
fifo-receive ops [] = refl
fifo-receive ops (e ∷ es) =
    let front = pending_front e es in
    ap (fifo (receive ∷ ops)) front.2
    ∙ (ap (λ o. o ∷ fifo ops front.1) (sym front.3)
        ∙ ap (λ ps. package_of (last? (e ∷ es)) ∷ fifo ops ps) (sym front.4))

module _ (Q : LinkedList ForwardQueueEntry) where
  popped-pending :
      (ops : List QueueOp) (q : Q.Handle) → popped Q ops q ≡ fifo ops (pending (Q.items q))
  unfolding popped fifo pending queue_push queue_pop package_of
  popped-pending [] q = refl
  popped-pending (send now p ∷ ops) q = popped-pending ops _ ∙ rw (Q.items-unshift q) refl
  popped-pending (receive ∷ ops) q =
      ap (λ o. package_of o ∷ popped Q ops (Q.pop q).1) (Q.pop-last q)
      ∙ (ap (λ l. package_of (last? (Q.items q)) ∷ l)
            (popped-pending ops (Q.pop q).1 ∙ ap (λ es. fifo ops (pending es)) (Q.items-pop q))
          ∙ sym (fifo-receive ops (Q.items q)))

  -- Whatever the order of pushes and pops, and whatever the clock reads, the pops on the forward
  -- queue, from its creation on, return what those on a plain first-in first-out queue of packages
  -- return, NULL on an empty queue included.
  pub popped-fifo : (ops : List QueueOp) → popped Q ops (queue_create Q) ≡ fifo ops []
  unfolding queue_create pending
  popped-fifo ops = popped-pending ops Q.create ∙ rw Q.items-create refl
