-- ===== src/Raft/Machine/Diverge.antt =====
-- A policy without an identifier takes one on each replica.
use knxvault.Prelude.{◌≡◌, true, some, Text, [], str_eq}
use knxvault.Errors.{Result, ok, err}
use knxvault.Auth.Policy.{Policy}
use knxvault.Repos.{nil_uuid}
use knxvault.Repos.Policies.{accepts}
use knxvault.Raft.Ops.{op_policy_save, op_of}
use knxvault.Raft.Values.{Command, policy_value}
use knxvault.Raft.Store.{Store}
use knxvault.Raft.Reply.{Library, Local}
use knxvault.Raft.Machine.{decode_command}

abbrev id_of : Result Policy → Text
id_of (ok policy) = policy.id
id_of (err e) = []

module _ (lib : Library) (s : Store) (entry : Text) (cmd : Command) (policy : Policy) where
  -- The entry is a policy.save of a policy that Save takes and that has no identifier.
  abbrev pub SavesNew : Type 0
  SavesNew =
      (decode_command lib entry ≡ ok cmd)
      × (op_of cmd.op ≡ some op_policy_save)
      × (lib.json.decode policy_value cmd.payload ≡ some policy)
      × (accepts policy ≡ true)
      × (str_eq policy.id nil_uuid ≡ true)

  abbrev own : Local → Policy
  own local = record policy { id = local.new_uuid 0 }
