-- ===== src/Frame/Actor.antt =====
-- frame/actor.{h,cc}: the handlers by type, and the loop that hands each message of the mailbox to one.
use ddls.Prelude.{List, [], ◌∷◌, ◌++◌, Option, none, some, ◌>>=◌, if◌then◌else◌}
use ddls.Prelude.Int.{ℤ, pos, eqb_ℤ}
use ddls.Message.{Message}

-- MsgType::Default
abbrev pub default_type : ℤ
default_type = pos 0

-- A response to a message; a fatal error is `none`.
abbrev pub Handler : Type 0 → Type 0 → Type 0
Handler B S = Message B → S → Option S

module _ {B S : Type 0} where
  unfoldable pub find_handler : ℤ → List (ℤ × Handler B S) → Option (Handler B S)
  find_handler type [] = none
  find_handler type ((key, task) ∷ handlers) =
      let other = find_handler type handlers in if eqb_ℤ key type then some task else other

  -- RegisterHandler: the map keeps a handler that it has.
  unfoldable pub register_handler :
      ℤ → Handler B S → List (ℤ × Handler B S) → List (ℤ × Handler B S)
  register_handler type task handlers = elim (find_handler type handlers) [
    | some old ↦ handlers
    | none ↦ handlers ++ (type, task) ∷ []
  ]

  -- The body of the loop of Main.
  unfoldable pub respond : List (ℤ × Handler B S) → Message B → S → Option S
  respond handlers m s = elim (find_handler m.type handlers) [
    | some task ↦ task m s
    | none ↦ elim (find_handler default_type handlers) [ some task ↦ task m s | none ↦ none ]
  ]

  -- Main, on the messages that it pops until the mailbox has exited.
  unfoldable pub main_loop : List (ℤ × Handler B S) → List (Message B) → S → Option S
  main_loop handlers [] s = some s
  main_loop handlers (m ∷ mailbox) s = do s' ← respond handlers m s; main_loop handlers mailbox s'
