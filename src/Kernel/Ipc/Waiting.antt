-- ===== src/Kernel/Ipc/Waiting.antt =====
-- The two queues of an endpoint.
use cenix.Base.{ℕ, Ptr, ◌≡◌, refl, ◌⊎◌, Option, List, [], ◌∷◌}
use cenix.LinkedList.{Container, Links, pop_from_start}
use cenix.LinkedList.Shape.{IsQueue}
use cenix.LinkedList.Queue.{can_pop-cons, can_pop-nil, pop-IsQueue}
use cenix.Kernel.State.{Kernel}
use cenix.Kernel.Ipc.{
  send_to, receive_from, endpoint_send, endpoint_receive, block_sender, block_receiver,
}

-- The threads `senders` and `receivers` wait at the endpoint, in these orders, and not both kinds
-- at once: a thread blocks only if nobody waits on the other side.
pub record IsEndpoint (k : Kernel) (endpoint : Ptr) (senders receivers : List Ptr) : Type 0 where
  pub sending : IsQueue k.blocked_queue (k.endpoints endpoint).blocked_sending senders
  pub receiving : IsQueue k.blocked_queue (k.endpoints endpoint).blocked_receiving receivers
  pub one_sided : (senders ≡ []) ⊎ (receivers ≡ [])

-- The code's test and pop, on queues that are known.
module _ {C : Type 0} (transfer : Kernel → Ptr → Ptr → Ptr → Ptr → C → C) (k : Kernel) (caps : C)
    (endpoint : Ptr) (badge : ℕ) (message : Ptr) where
  abbrev popped : Container → Option Ptr × Container × Links
  popped c = pop_from_start c k.blocked_queue

  pub send-receiver :
      (ss : List Ptr) (r : Ptr) (rs : List Ptr)
      → IsEndpoint k endpoint ss (r ∷ rs)
      → let (got, c, links) = popped (k.endpoints endpoint).blocked_receiving in
        endpoint_send transfer k caps endpoint badge message
        ≡ send_to transfer (record k { blocked_queue = links }) caps endpoint badge message r c
  unfolding endpoint_send
  send-receiver ss r rs e =
      rw
        (
          can_pop-cons k.blocked_queue (k.endpoints endpoint).blocked_receiving r rs e.receiving,
          (pop-IsQueue k.blocked_queue (k.endpoints endpoint).blocked_receiving r rs e.receiving).0,
          endpoint_send,
        )
        refl

  pub send-alone :
      (ss : List Ptr)
      → IsEndpoint k endpoint ss []
      → endpoint_send transfer k caps endpoint badge message
        ≡ (block_sender k endpoint badge message, caps)
  unfolding endpoint_send
  send-alone ss e =
      rw (can_pop-nil k.blocked_queue (k.endpoints endpoint).blocked_receiving e.receiving)

  pub receive-sender :
      (s : Ptr) (ss rs : List Ptr)
      → IsEndpoint k endpoint (s ∷ ss) rs
      → let (got, c, links) = popped (k.endpoints endpoint).blocked_sending in
        endpoint_receive transfer k caps endpoint badge message
        ≡ receive_from transfer (record k { blocked_queue = links }) caps endpoint message s c
  unfolding endpoint_receive
  receive-sender s ss rs e =
      rw
        (
          can_pop-cons k.blocked_queue (k.endpoints endpoint).blocked_sending s ss e.sending,
          (pop-IsQueue k.blocked_queue (k.endpoints endpoint).blocked_sending s ss e.sending).0,
          endpoint_receive,
        )
        refl

  pub receive-alone :
      (rs : List Ptr)
      → IsEndpoint k endpoint [] rs
      → endpoint_receive transfer k caps endpoint badge message
        ≡ (block_receiver k endpoint badge message, caps)
  unfolding endpoint_receive
  receive-alone rs e =
      rw (can_pop-nil k.blocked_queue (k.endpoints endpoint).blocked_sending e.sending)

-- An endpoint's queues are read from the endpoints and the `blocked_queue` links alone.
pub IsEndpoint-same :
    (k k' : Kernel) (endpoint : Ptr) (ss rs : List Ptr)
    → k'.endpoints ≡ k.endpoints
    → k'.blocked_queue ≡ k.blocked_queue
    → IsEndpoint k endpoint ss rs
    → IsEndpoint k' endpoint ss rs
IsEndpoint-same k k' endpoint ss rs e l q = record {
  sending = rw (e, l) q.sending;
  receiving = rw (e, l) q.receiving;
  one_sided = q.one_sided;
}
