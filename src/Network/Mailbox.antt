-- ===== src/Network/Mailbox.antt =====
-- Inbox and Outbox of orchestrator/internal/engine/network (inbox.go, outbox.go): one definition for
-- both, over the type of their messages. Each call holds the mutex, so that any schedule of the
-- callers is a sequence of calls.
use minecraft_orchestrator.Base.{List, [], ◌∷◌, ◌++◌, append-nil, append_assoc, ◌≡◌, ap, sym, ◌∙◌}

pub record Mailbox {ℓ} (A : Type ℓ) : Type ℓ where
  pub messages : List A

-- NewInbox, NewOutbox.
abbrev pub new_mailbox {ℓ} : {A : Type ℓ} → Mailbox A
new_mailbox = record { messages = [] }

unfoldable pub publish {ℓ} : {A : Type ℓ} → A → Mailbox A → Mailbox A
publish message box = record { messages = box.messages ++ message ∷ [] }

unfoldable pub drain {ℓ} : {A : Type ℓ} → Mailbox A → Mailbox A × List A
drain box = (record { messages = [] }, box.messages)

-- A call by one of the threads.
pub data Call {ℓ} (A : Type ℓ) : Type ℓ where
  publishing : A → Call A
  draining : Call A

-- The mailbox after a sequence of calls, and all that its drains have returned, in order.
unfoldable pub run {ℓ} : {A : Type ℓ} → List (Call A) → Mailbox A → Mailbox A × List A
unfolding publish drain
run [] box = (box, [])
run (publishing m ∷ calls) box = run calls (publish m box)
run (draining ∷ calls) box =
    let emptied = drain box in let rest = run calls emptied.0 in (rest.0, emptied.1 ++ rest.1)

-- The messages that a sequence of calls publishes.
unfoldable pub published {ℓ} : {A : Type ℓ} → List (Call A) → List A
published [] = []
published (publishing m ∷ calls) = m ∷ published calls
published (draining ∷ calls) = published calls

-- In any sequence of calls the drains together return, in the order of publication, what was in the
-- mailbox and what has been published, each message once; what they have not returned is still
-- there, after it.
pub run-published {ℓ} :
    {A : Type ℓ} (calls : List (Call A)) (box : Mailbox A)
    → let end = run calls box in end.1 ++ end.0.messages ≡ box.messages ++ published calls
unfolding run published publish drain
run-published [] box = sym (append-nil box.messages)
run-published (publishing m ∷ calls) box =
    run-published calls (publish m box) ∙ append_assoc box.messages (m ∷ []) (published calls)
run-published (draining ∷ calls) box =
    append_assoc box.messages _ _
    ∙ ap (λ r. box.messages ++ r) (run-published calls (record { messages = [] }))
