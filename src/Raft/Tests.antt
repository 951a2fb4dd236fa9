-- ===== src/Raft/Tests.antt =====
-- Tests of the state machine and its client, with a codec that reads a text of one letter for each
-- value that the tests send.
use knxvault.Prelude.{
  ◌≡◌, ◌⊎◌, refl, sym, ◌∙◌, ℕ, true, false, Option, none, some, [], ◌∷◌, Text, codes, arith, lookup,
  ◌==◌, if◌then◌else◌, Text-discrete,
}
use knxvault.Errors.{ok, err, fail, validation, KnxVaultError}
use knxvault.Auth.Policy.{Policy}
use knxvault.Secrets.Store.{SecretVersion, put_atomic, get_version}
use knxvault.Backup.Restore.{restore}
use knxvault.Raft.Ops.{
  op_text, op_secret_put, op_secret_get_version, op_policy_save, is_read_only_op,
}
use knxvault.Raft.Values.{
  Command, Response, Kind, Val, command_value, response_value, put_request, version_request,
  policy_value, number_value, secret_value,
}
use knxvault.Raft.Store.{Store, new_store, repos, with_repos, import_snapshot, export_store}
use knxvault.Raft.Store.Valid.{StoreValid}
use knxvault.Raft.Store.Import.{import_snapshot-all_or_nothing}
use knxvault.Raft.Reply.{Library, Local, restore_env}
use knxvault.Raft.Machine.{response_of, handle, lookup_store, update, replay}
use knxvault.Raft.Machine.ReadOnly.{lookup_store-unchanged}
use knxvault.Raft.Machine.WellFormed.{replay-StoreValid}
use knxvault.Raft.Machine.Replicas.{replay-agrees}
use knxvault.Raft.Client.{NodeHost}
use knxvault.Raft.Client.Refines.{filled, secret_put-refines, secret_get_version-refines}
use knxvault.Raft.SecretsAdapters.{put_payload, secret_put, secret_get_version}

abbrev secret : ℕ → SecretVersion
secret version = record {
  id = 1;
  path = codes "a";
  version = version;
  data_enc = 7 ∷ [];
  dek_enc = 8 ∷ [];
  lease_id = none;
  ttl_seconds = none;
  created_at = 0;
  expires_at = none;
  destroyed = false;
  labels = [];
}

abbrev policy : Policy
policy = record {
  id = codes "00000000-0000-0000-0000-000000000000";
  name = codes "p";
  effect = codes "allow";
  resources = codes "secret/*" ∷ [];
  actions = codes "read" ∷ [];
  capabilities = [];
  includes = [];
  conditions = [];
}

abbrev put_command : Command
put_command = record { op = op_text op_secret_put; payload = codes "p" }

abbrev get_command : Command
get_command = record { op = op_text op_secret_get_version; payload = codes "g" }

abbrev save_command : Command
save_command = record { op = op_text op_policy_save; payload = codes "y" }

abbrev number_response : Response
number_response = record { error_code = none; message = []; content = some (1 ∷ []) }

abbrev secret_response : Response
secret_response = record { error_code = none; message = []; content = some (codes "s") }

abbrev letter : Text → ℕ
letter [] = 0
letter (c ∷ _) = c

abbrev read_command : ℕ → Option Command
read_command c =
    if c == b'p'
    then some put_command
    else if c == b'g'
    then some get_command
    else if c == b'y'
    then some save_command
    else none

abbrev decode_text : (k : Kind) → Text → Option (Val k)
decode_text command_value text = read_command (letter text)
decode_text response_value text =
    some (if letter text == b's' then secret_response else number_response)
decode_text put_request _ = some (put_payload (secret 0) none 2)
decode_text version_request _ = some (codes "a", 1)
decode_text policy_value _ = some policy
decode_text number_value text = some (letter text)
decode_text secret_value _ = some (secret 1)
decode_text _ _ = none

-- The letter of a command is that of its payload, the letter of a response that of its data.
abbrev encode_value : (k : Kind) → Val k → Text
encode_value command_value cmd = cmd.payload
encode_value response_value r = elim r.content [ none ↦ codes "e" | some text ↦ text ]
encode_value put_request _ = codes "p"
encode_value version_request _ = codes "g"
encode_value policy_value _ = codes "y"
encode_value number_value n = n ∷ []
encode_value secret_value _ = codes "s"
encode_value _ _ = []

abbrev lib : Library
lib = record {
  json = record {
    decode = decode_text;
    encode = encode_value;
    complaint = λ k text. codes "invalid";
  };
  url_password = λ text. false;
  audit = record {
    marshal = λ fields. [];
    format_time = λ t. t ∷ [];
    sha256_hex = λ text. text;
    hmac_hex = λ key text. text;
  };
}

abbrev replica : ℕ → Local
replica n = record { now = n; new_uuid = λ i. n ∷ [] }

abbrev node : NodeHost
node = record {
  sync_propose = update lib (replica 1);
  sync_read =
      λ s query. ok (lib.json.encode response_value (lookup_store lib (replica 1) s query).1);
}

abbrev one_secret : Store
one_secret = record new_store { secrets = (put_atomic [] (secret 0) none 2).0 }

replay-StoreValid_example :
    StoreValid lib.url_password
      (replay lib ((replica 1, codes "p") ∷ (replica 2, codes "y") ∷ []) new_store)
replay-StoreValid_example =
    replay-StoreValid lib ((replica 1, codes "p") ∷ (replica 2, codes "y") ∷ [])

lookup_store-unchanged_example :
    ((lookup_store lib (replica 1) new_store put_command).0 ≡ new_store)
    × (is_read_only_op put_command.op ≡ false
        → (lookup_store lib (replica 1) new_store put_command).1
          ≡ response_of lib.json (fail validation (codes "write command not allowed on read path")))
    × (is_read_only_op put_command.op ≡ true
        → (lookup_store lib (replica 1) new_store put_command).1
          ≡ (handle lib (replica 1) new_store put_command).1)
lookup_store-unchanged_example = lookup_store-unchanged lib (replica 1) new_store put_command

replay-agrees_example :
    replay lib ((replica 1, codes "p") ∷ []) new_store
    ≡ replay lib ((replica 2, codes "p") ∷ []) new_store
unfolding knxvault.Raft.Machine.decode_command knxvault.Raft.Ops.op_of
replay-agrees_example =
    replay-agrees lib ((replica 1, codes "p") ∷ []) ((replica 2, codes "p") ∷ []) new_store
      (refl, refl, tt)

some_ok : {a b : SecretVersion} → ok a ≡ ok b → some a ≡ some b
some_ok h = ground arith

put_test : (put_atomic [] (secret 0) none 2).1 ≡ ok 1
unfolding put_atomic knxvault.Secrets.Store.validate knxvault.Secrets.Store.next_version lookup
put_test = refl

get_test : get_version one_secret.secrets (codes "a") 1 ≡ ok (secret 1)
unfolding get_version lookup put_atomic knxvault.Secrets.Store.validate
    knxvault.Secrets.Store.next_version knxvault.Secrets.Store.trim_versions knxvault.Prelude.insert
    Text-discrete knxvault.Secrets.Store.SecretKey-discrete
get_test = refl

secret_put-refines_example :
    secret_put lib.json node new_store (secret 0) none 2
    ≡ (one_secret, filled (put_atomic [] (secret 0) none 2).1)
unfolding response_of put_atomic knxvault.Secrets.Store.validate knxvault.Secrets.Store.next_version
    new_store lookup
secret_put-refines_example =
    secret_put-refines lib (replica 1) node new_store (secret 0) none 2 (λ s e. refl, λ s q. refl)
      refl (refl, refl, refl) (λ v e. (refl, refl))

secret_get_version-refines_example :
    secret_get_version lib.json node one_secret (codes "a") 1
    ≡ filled (get_version one_secret.secrets (codes "a") 1)
unfolding response_of get_version lookup put_atomic knxvault.Secrets.Store.validate
    knxvault.Secrets.Store.next_version knxvault.Secrets.Store.trim_versions knxvault.Prelude.insert
    Text-discrete knxvault.Secrets.Store.SecretKey-discrete
secret_get_version-refines_example =
    secret_get_version-refines lib (replica 1) node one_secret (codes "a") 1
      (λ s e. refl, λ s q. refl) refl (refl, refl, refl) (λ v e. (some_ok (sym get_test ∙ e), refl))

import_snapshot-all_or_nothing_example :
    ((e : KnxVaultError) × ((import_snapshot
          (restore_env lib (replica 1))
          one_secret
          (export_store one_secret true 5)).1
        ≡ err e)
      × ((import_snapshot
            (restore_env lib (replica 1))
            one_secret
            (export_store one_secret true 5)).0
          ≡ one_secret))
    ⊎ ((import_snapshot (restore_env lib (replica 1)) one_secret (export_store one_secret true 5)).1
        ≡ ok tt)
      × ((import_snapshot
            (restore_env lib (replica 1))
            one_secret
            (export_store one_secret true 5)).0
          ≡ with_repos new_store
              (restore
                (restore_env lib (replica 1))
                (export_store one_secret true 5)
                (repos new_store)).0)
      × ((import_snapshot
            (restore_env lib (replica 1))
            one_secret
            (export_store one_secret true 5)).0.identities
          ≡ [])
      × ((import_snapshot
            (restore_env lib (replica 1))
            one_secret
            (export_store one_secret true 5)).0.rotations
          ≡ [])
import_snapshot-all_or_nothing_example =
    import_snapshot-all_or_nothing (restore_env lib (replica 1)) one_secret
      (export_store one_secret true 5)
