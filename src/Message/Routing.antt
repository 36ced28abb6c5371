-- ===== src/Message/Routing.antt =====
-- frame/communicator.cc: where a message goes, and that replies come back.
use ddls.Prelude.{
  ℕ, zero, suc, ◌≡◌, ◌≢◌, refl, sym, ap, ◌∙◌, Bool, ◌&&◌, ◌==◌, ==_refl, if◌then◌else◌, of_some,
  arith, not, Option, some, none, [],
}
use ddls.Prelude.Int.{ℤ, pos, negsuc, neg, ltb_ℤ, neg-neg}
use ddls.Message.{Message, create_reply_message}

-- namespace message
unfoldable pub to_server : ℤ → Bool
to_server t = ltb_ℤ (pos 0) t && ltb_ℤ t (pos 32)

unfoldable pub to_worker : ℤ → Bool
to_worker t = ltb_ℤ t (pos 0) && ltb_ℤ (neg (pos 32)) t

unfoldable pub to_controler : ℤ → Bool
to_controler t = ltb_ℤ (pos 32) t

-- The actors of a node; `zoo` is the mailbox of the node's own thread.
pub data Target : Type 0 where
  server worker controller zoo network : Target

module _ {ℓ} {B : Type ℓ} where
  -- The CHECK that the message is addressed to this rank, then the dispatch.
  unfoldable pub local_forward : ℕ → Message B → Option Target
  unfolding to_server to_worker to_controler
  local_forward rank m =
      if m.dst == rank
      then some (
          if to_server m.type
          then server
          else if to_worker m.type
          then worker
          else if to_controler m.type
          then controller
          else zoo)
      else none

  unfoldable pub process_message : ℕ → Message B → Option Target
  unfolding local_forward
  process_message rank m = if not (m.dst == rank) then some network else local_forward rank m

  pub reply_of_reply :
      (m : Message B) → create_reply_message (create_reply_message m) ≡ record m { blobs = [] }
  unfolding create_reply_message
  reply_of_reply m = ground (arith, neg-neg m.type)

  -- A message of the node's own process is never lost: it is sent, or handed to an actor.
  pub process_message-ne-none : (rank : ℕ) (m : Message B) → process_message rank m ≢ none
  unfolding process_message
  process_message-ne-none rank m h = ground arith

-- Which actor a type goes to, and which its negation goes to.
abbrev pub target : ℤ → Target
unfolding to_server to_worker to_controler
target t =
    if to_server t
    then server
    else if to_worker t
    then worker
    else if to_controler t
    then controller
    else zoo

target-neg_server : (t : ℤ) → target t ≡ server → target (neg t) ≡ worker
unfolding to_server to_worker to_controler
target-neg_server (pos zero) h = cc
target-neg_server (pos (suc n)) h = ground arith
target-neg_server (negsuc n) h = ground arith

target-neg_controller : (t : ℤ) → target t ≡ controller → target (neg t) ≡ zoo
unfolding to_server to_worker to_controler
target-neg_controller (pos zero) h = cc
target-neg_controller (pos (suc n)) h = ground arith
target-neg_controller (negsuc n) h = ground arith

module _ {ℓ} {B : Type ℓ} where
  local_forward-target :
      (rank : ℕ) (m : Message B) → m.dst ≡ rank → local_forward rank m ≡ some (target m.type)
  unfolding local_forward
  local_forward-target rank m e = rw (e, ==_refl)

  -- The reply to a message that the communicator hands to the server is handed, on the sender's
  -- node, to the worker; the reply to a message for the controller goes to the mailbox on which
  -- that node's own thread waits. Both keep the table and message ids of the request.
  pub reply-route :
      (m : Message B)
      → (local_forward m.dst m ≡ some server
          → local_forward m.src (create_reply_message m) ≡ some worker)
        × (local_forward m.dst m ≡ some controller
            → local_forward m.src (create_reply_message m) ≡ some zoo)
        × ((create_reply_message m).msg_id ≡ m.msg_id)
        × ((create_reply_message m).table_id ≡ m.table_id)
  unfolding create_reply_message
  reply-route m = (
    λ h.
        local_forward-target m.src (create_reply_message m) refl
        ∙ ap some
            (target-neg_server m.type (of_some (sym (local_forward-target m.dst m refl) ∙ h))),
    λ h.
        local_forward-target m.src (create_reply_message m) refl
        ∙ ap some
            (target-neg_controller m.type (of_some (sym (local_forward-target m.dst m refl) ∙ h))),
    refl,
    refl,
  )
