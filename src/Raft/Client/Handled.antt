-- ===== src/Raft/Client/Handled.antt =====
-- A call of the client is the handler's: what is sent is what the handler of the state machine does, and
-- what comes back is what it returned.
use knxvault.Prelude.{◌≡◌, refl, ◌∙◌, ap, is_empty, true, false, Option, none, some, Text}
use knxvault.Errors.{Result, ok, err, and_then}
use knxvault.Raft.Ops.{Op, op_text-filled, op_of, op_of-op_text, read_only, is_read_only_op}
use knxvault.Raft.Values.{Kind, Val, Json, Any, Command, Response, command_value, response_value}
use knxvault.Raft.Store.{Store}
use knxvault.Raft.Reply.{Library, Local, Reply}
use knxvault.Raft.Machine.{
  decode_command, run, handle, update, lookup_store, response_of, store_handler,
}
use knxvault.Raft.Machine.ReadOnly.{lookup_store-unchanged}
use knxvault.Raft.Client.{
  NodeHost, command_of, encode_command, response_result, read_response, read_data, decode_result,
  checked, propose, read_query, with_result, no_data, write, write_result, read,
}

-- A value that encoding/json reads back from the text that it makes of it.
abbrev pub Carries : Json → (k : Kind) → Val k → Type 0
Carries json k v = json.decode k (json.encode k v) ≡ some v

-- A NodeHost that hands an entry to the state machine, and a query to its Lookup.
abbrev pub IsLinear : Library → Local → NodeHost → Type 0
IsLinear lib local node =
    ((s : Store) (entry : Text) → node.sync_propose s entry ≡ update lib local s entry)
    × ((s : Store) (query : Command)
        → node.sync_read s query
          ≡ ok (lib.json.encode response_value (lookup_store lib local s query).1))

-- What encoding/json has to carry of a call: the command, and the response, whose text is not empty.
abbrev pub Travels : Library → Command → Response → Type 0
Travels lib cmd response =
    Carries lib.json command_value cmd
    × Carries lib.json response_value response
    × (is_empty (lib.json.encode response_value response) ≡ false)

-- The data of a reply, as the response holds it.
abbrev pub data_of : Json → Result Any → Result (Option Text)
data_of json (err e) = err e
data_of json (ok none) = ok none
data_of json (ok (some (k, v))) = ok (some (json.encode k v))

response_result-data :
    (json : Json) (r : Result Any) → response_result json (response_of json r) ≡ data_of json r
unfolding response_of
response_result-data json (err e) = refl
response_result-data json (ok none) = refl
response_result-data json (ok (some (k, v))) = refl

command_of-filled :
    (json : Json) (op : Op) (payload : Any) → is_empty (command_of json op payload).op ≡ false
command_of-filled json op none = op_text-filled op
command_of-filled json op (some (k, v)) = op_text-filled op

command_of-op :
    (json : Json) (op : Op) (payload : Any) → op_of (command_of json op payload).op ≡ some op
command_of-op json op none = op_of-op_text op
command_of-op json op (some (k, v)) = op_of-op_text op

module _ (lib : Library) (local : Local) where
  -- The handler of an operation runs on its payload.
  pub run-op :
      (s : Store) (op : Op) (payload : Any)
      → run lib local s (command_of lib.json op payload)
        ≡ store_handler lib local op s (command_of lib.json op payload).payload
  unfolding run
  run-op s op payload = rw (command_of-op lib.json op payload, run) refl

  decode_command-carried :
      (cmd : Command)
      → Carries lib.json command_value cmd
      → is_empty cmd.op ≡ false
      → decode_command lib (lib.json.encode command_value cmd) ≡ ok cmd
  unfolding decode_command
  decode_command-carried cmd c f = rw (c, decode_command, f) refl

  update-carried :
      (s : Store) (cmd : Command)
      → Carries lib.json command_value cmd
      → is_empty cmd.op ≡ false
      → update lib local s (lib.json.encode command_value cmd) ≡ (
        (run lib local s cmd).0,
        ok (lib.json.encode response_value (response_of lib.json (run lib local s cmd).1)),
      )
  unfolding update handle
  update-carried s cmd c f = rw (decode_command-carried cmd c f, update) refl

  read_response-carried :
      (r : Result Any)
      → Carries lib.json response_value (response_of lib.json r)
      → read_response lib.json (lib.json.encode response_value (response_of lib.json r))
        ≡ data_of lib.json r
  unfolding read_response
  read_response-carried r c = rw (c, read_response) (response_result-data lib.json r)

  module _ (node : NodeHost) (s : Store) (op : Op) (payload : Any) where
    abbrev pub reply : Reply
    reply = run lib local s (command_of lib.json op payload)

    abbrev pub Sent : Type 0
    Sent = Travels lib (command_of lib.json op payload) (response_of lib.json reply.1)

    is_read_only-op :
        read_only op ≡ true → is_read_only_op (command_of lib.json op payload).op ≡ true
    unfolding is_read_only_op
    is_read_only-op h = rw (command_of-op lib.json op payload, is_read_only_op) h

    propose-carried :
        IsLinear lib local node
        → Sent
        → propose lib.json node s op payload
          ≡ (reply.0, ok (lib.json.encode response_value (response_of lib.json reply.1)))
    unfolding propose encode_command
    propose-carried l t =
        ap (checked lib.json) (
          l.0 s (lib.json.encode command_value (command_of lib.json op payload))
          ∙ update-carried s (command_of lib.json op payload) t.0
              (command_of-filled lib.json op payload))
        ∙ rw t.2 refl

    -- A write that returns no data.
    pub write-reply :
        IsLinear lib local node
        → Sent
        → write lib.json node s op payload
          ≡ (reply.0, and_then (data_of lib.json reply.1) (no_data lib.json node))
    unfolding write
    write-reply l t =
        let read_unit : Text → Result (Unit {0}) =
          λ text. and_then (read_response lib.json text) (no_data lib.json node) in
        ap (with_result lib.json node read_unit) (propose-carried l t)
        ∙ ap (λ r. (reply.0, and_then r (no_data lib.json node)))
            (read_response-carried reply.1 t.1)

    -- A write whose data is decoded.
    pub write_result-reply :
        (k : Kind)
        → IsLinear lib local node
        → Sent
        → write_result lib.json node k s op payload
          ≡ (reply.0, and_then (data_of lib.json reply.1) (read_data lib.json k))
    unfolding write_result decode_result
    write_result-reply k l t =
        ap (with_result lib.json node (decode_result lib.json k)) (propose-carried l t)
        ∙ ap (λ r. (reply.0, and_then r (read_data lib.json k))) (read_response-carried reply.1 t.1)

    read_query-carried :
        IsLinear lib local node
        → Sent
        → read_only op ≡ true
        → read_query lib.json node s op payload
          ≡ ok (lib.json.encode response_value (response_of lib.json reply.1))
    unfolding read_query encode_command handle
    read_query-carried l t h =
        let cmd = command_of lib.json op payload in
        let allowed = is_read_only-op h in
        rw (t.0, read_query, l.1 s cmd, (lookup_store-unchanged lib local s cmd).2 allowed) refl

    -- A read of a read-only operation.
    pub read-reply :
        (k : Kind)
        → IsLinear lib local node
        → Sent
        → read_only op ≡ true
        → read lib.json node k s op payload
          ≡ and_then (data_of lib.json reply.1) (read_data lib.json k)
    unfolding read decode_result
    read-reply k l t h =
        ap (λ r. and_then r (decode_result lib.json k)) (read_query-carried l t h)
        ∙ ap (λ r. and_then r (read_data lib.json k)) (read_response-carried reply.1 t.1)
