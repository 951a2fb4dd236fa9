-- ===== src/Raft/Client.antt =====
-- Client.Propose and Client.Read of internal/raft/client.go, DecodeResult of internal/raft/store.go, and the
-- functions write and read of internal/repository/dragonboat/repo.go. The NodeHost of the dragonboat
-- library is a parameter: it takes the replicated store to the one after the call, with what the state
-- machine returned or an error of its own.
use knxvault.Prelude.{is_empty, Option, none, some, [], Text, codes, if◌then◌else◌}
use knxvault.Errors.{Result, ok, err, fail, internal, and_then}
use knxvault.Repos.{Outcome}
use knxvault.Raft.Ops.{Op, op_text}
use knxvault.Raft.Values.{Kind, Val, Json, Any, Command, Response, command_value, response_value}
use knxvault.Raft.Store.{Store}
pub mod Handled
pub mod Refines

-- NodeHost
pub record NodeHost : Type 0 where
  pub sync_propose : Store → Text → Outcome Store Text
  pub sync_read : Store → Command → Result Text

module _ (json : Json) where
  abbrev pub command_of : Op → Any → Command
  command_of op none = record { op = op_text op; payload = [] }
  command_of op (some (k, v)) = record { op = op_text op; payload = json.encode k v }

  -- encodeCommand
  unfoldable pub encode_command : Op → Any → Text
  encode_command op payload = json.encode command_value (command_of op payload)

  -- The error code and the message of a response, or its data.
  abbrev pub response_result : Response → Result (Option Text)
  response_result r = elim r.error_code [
    | some code ↦ err (record { code = code; message = r.message })
    | none ↦ ok r.content
  ]

  -- DecodeResult up to its last step.
  unfoldable pub read_response : Text → Result (Option Text)
  read_response text = elim (json.decode response_value text) [
    | none ↦ fail internal (json.complaint response_value text)
    | some r ↦ response_result r
  ]

  -- The last step of DecodeResult: `none` leaves the variable at its zero value.
  unfoldable pub read_data : (k : Kind) → Option Text → Result (Option (Val k))
  read_data k none = ok none
  read_data k (some text) = if is_empty text then ok none else elim (json.decode k text) [
    | none ↦ fail internal (json.complaint k text)
    | some v ↦ ok (some v)
  ]

  -- DecodeResult into a variable.
  unfoldable pub decode_result : (k : Kind) → Text → Result (Option (Val k))
  unfolding read_response read_data
  decode_result k text = and_then (read_response text) (read_data k)

  -- What Propose makes of the data of a result.
  abbrev pub checked : Outcome Store Text → Outcome Store Text
  checked (s, err e) = (s, err e)
  checked (s, ok text) =
      (s, if is_empty text then fail internal (codes "empty raft response") else ok text)

  module _ (node : NodeHost) where
    -- Propose
    unfoldable pub propose : Store → Op → Any → Outcome Store Text
    unfolding encode_command
    propose s op payload = checked (node.sync_propose s (encode_command op payload))

    -- Client.Read
    unfoldable pub read_query : Store → Op → Any → Result Text
    unfolding encode_command
    read_query s op payload = elim (json.decode command_value (encode_command op payload)) [
      | none ↦ fail internal (json.complaint command_value (encode_command op payload))
      | some cmd ↦ node.sync_read s cmd
    ]

    abbrev pub with_result : {A : Type 0} → (Text → Result A) → Outcome Store Text → Outcome Store A
    with_result f (s, result) = (s, and_then result f)

    abbrev pub no_data : Option Text → Result (Unit {0})
    no_data _ = ok tt

    -- write
    unfoldable pub write : Store → Op → Any → Outcome Store (Unit {0})
    unfolding propose read_response
    write s op payload =
        with_result (λ text. and_then (read_response text) no_data) (propose s op payload)

    -- A Propose whose result is decoded into a variable.
    unfoldable pub write_result : (k : Kind) → Store → Op → Any → Outcome Store (Option (Val k))
    unfolding propose decode_result
    write_result k s op payload = with_result (decode_result k) (propose s op payload)

    -- read
    unfoldable pub read : (k : Kind) → Store → Op → Any → Result (Option (Val k))
    unfolding read_query decode_result
    read k s op payload = and_then (read_query s op payload) (decode_result k)
