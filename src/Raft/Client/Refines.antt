-- ===== src/Raft/Client/Refines.antt =====
-- The repository of secrets over the client is the in-memory repository on the replicated store.
use knxvault.Prelude.{◌≡◌, refl, ◌∙◌, ap, is_empty, ℕ, false, Option, none, some, Text}
use knxvault.Errors.{Result, ok, err, and_then}
use knxvault.Secrets.Store.{SecretVersion, put_atomic, get_version, destroy_version}
use knxvault.Repos.{Outcome}
use knxvault.Raft.Ops.{op_secret_put, op_secret_get_version, op_secret_destroy_ver}
use knxvault.Raft.Values.{
  Kind, Val, Json, Any, put_request, version_request, number_value, secret_value,
}
use knxvault.Raft.Store.{Store}
use knxvault.Raft.Reply.{Library, Local, answer, answered, wrote}
use knxvault.Raft.Reply.Split.{change-some, with_payload-some}
use knxvault.Raft.SecretHandlers.{
  handle_secret_put, handle_secret_get_version, handle_secret_destroy_ver,
}
use knxvault.Raft.Machine.{run, store_handler, response_of}
use knxvault.Raft.Client.{NodeHost, command_of, read_data, no_data}
use knxvault.Raft.Client.Handled.{
  Carries, IsLinear, Travels, data_of, run-op, Sent, write-reply, write_result-reply, read-reply,
}
use knxvault.Raft.SecretsAdapters.{
  put_payload, secret_put, secret_get_version, secret_destroy_version,
}

-- What encoding/json has to carry of the data of a result: the value, in a text that is not empty.
abbrev pub CarriesResult : Json → (k : Kind) → Result (Val k) → Type 0
CarriesResult json k r =
    (v : Val k) → r ≡ ok v → Carries json k v × (is_empty (json.encode k v) ≡ false)

-- A result whose variable was filled.
abbrev pub filled : {A : Type 0} → Result A → Result (Option A)
filled r = and_then r (λ v. ok (some v))

data_of-answer :
    (json : Json) (k : Kind) (r : Result (Val k))
    → CarriesResult json k r
    → and_then (data_of json (answer k r)) (read_data json k) ≡ filled r
unfolding read_data
data_of-answer json k (err e) c = refl
data_of-answer json k (ok v) c = let (p, q) = c v refl in rw (q, read_data, p) refl

no_data-wrote :
    (json : Json) (node : NodeHost) (r : Result (Unit {0}))
    → and_then (data_of json (and_then r (λ _. ok none))) (no_data json node) ≡ r
no_data-wrote json node (ok u) = refl
no_data-wrote json node (err e) = refl

wrote-pair :
    {T : Type 0} (f : T → Store) (o : Outcome T (Unit {0}))
    → wrote f o ≡ (f o.0, and_then o.1 (λ _. ok none))
wrote-pair f (t, ok _) = refl
wrote-pair f (t, err e) = refl

module _ (lib : Library) (local : Local) (node : NodeHost) (s : Store) where
  run-put :
      (sv : SecretVersion) (cas : Option ℕ) (max : ℕ)
      → Carries lib.json put_request (put_payload sv cas max)
      → run lib local s
          (command_of lib.json op_secret_put (some (put_request, put_payload sv cas max)))
        ≡ (
          record s { secrets = (put_atomic s.secrets sv cas max).0 },
          answer number_value (put_atomic s.secrets sv cas max).1,
        )
  unfolding store_handler handle_secret_put
  run-put sv cas max c =
      run-op lib local s op_secret_put (some (put_request, put_payload sv cas max))
      ∙ (change-some lib put_request _ s
          (λ x.
            answered (λ t. record s { secrets = t }) number_value
              (put_atomic s.secrets x.secret_version x.cas_version x.max_versions))
          (put_payload sv cas max) c)

  -- PutAtomic through the client is PutAtomic of the in-memory repository on the replicated store:
  -- the same secrets are stored, the same version or error is returned, and nothing else changes. The
  -- NodeHost hands entries to the state machine, and JSON carries the command and the response.
  pub secret_put-refines :
      (sv : SecretVersion) (cas : Option ℕ) (max : ℕ)
      → IsLinear lib local node
      → Carries lib.json put_request (put_payload sv cas max)
      → Travels lib
          (command_of lib.json op_secret_put (some (put_request, put_payload sv cas max)))
          (response_of lib.json (answer number_value (put_atomic s.secrets sv cas max).1))
      → CarriesResult lib.json number_value (put_atomic s.secrets sv cas max).1
      → secret_put lib.json node s sv cas max ≡ (
        record s { secrets = (put_atomic s.secrets sv cas max).0 },
        filled (put_atomic s.secrets sv cas max).1,
      )
  unfolding secret_put
  secret_put-refines sv cas max l c t r =
      let payload : Any = some (put_request, put_payload sv cas max) in
      let done = run-put sv cas max c in
      let sent : Sent lib local node s op_secret_put payload = rw done t in
      write_result-reply lib local node s op_secret_put payload number_value l sent
      ∙ (ap (λ o. (o.0, and_then (data_of lib.json o.1) (read_data lib.json number_value))) done
          ∙ ap (λ o. (record s { secrets = (put_atomic s.secrets sv cas max).0 }, o))
              (data_of-answer lib.json number_value (put_atomic s.secrets sv cas max).1 r))

  run-destroy :
      (path : Text) (version : ℕ)
      → Carries lib.json version_request (path, version)
      → run lib local s
          (command_of lib.json op_secret_destroy_ver (some (version_request, (path, version))))
        ≡ (
          record s { secrets = (destroy_version s.secrets path version).0 },
          and_then (destroy_version s.secrets path version).1 (λ _. ok none),
        )
  unfolding store_handler handle_secret_destroy_ver
  run-destroy path version c =
      run-op lib local s op_secret_destroy_ver (some (version_request, (path, version)))
      ∙ (change-some lib version_request _ s
            (λ x. wrote (λ t. record s { secrets = t }) (destroy_version s.secrets x.0 x.1))
            (path, version) c
          ∙ wrote-pair (λ t. record s { secrets = t }) (destroy_version s.secrets path version))

  -- DestroyVersion through the client is DestroyVersion of the in-memory repository on the replicated
  -- store, under the same conditions.
  pub secret_destroy_version-refines :
      (path : Text) (version : ℕ)
      → IsLinear lib local node
      → Carries lib.json version_request (path, version)
      → Travels lib
          (command_of lib.json op_secret_destroy_ver (some (version_request, (path, version))))
          (response_of lib.json
            (and_then (destroy_version s.secrets path version).1 (λ _. ok none)))
      → secret_destroy_version lib.json node s path version ≡ (
        record s { secrets = (destroy_version s.secrets path version).0 },
        (destroy_version s.secrets path version).1,
      )
  unfolding secret_destroy_version
  secret_destroy_version-refines path version l c t =
      let payload : Any = some (version_request, (path, version)) in
      let done = run-destroy path version c in
      let sent : Sent lib local node s op_secret_destroy_ver payload = rw done t in
      write-reply lib local node s op_secret_destroy_ver payload l sent
      ∙ (ap (λ o. (o.0, and_then (data_of lib.json o.1) (no_data lib.json node))) done
          ∙ ap (λ o. (record s { secrets = (destroy_version s.secrets path version).0 }, o))
              (no_data-wrote lib.json node (destroy_version s.secrets path version).1))

  run-get :
      (path : Text) (version : ℕ)
      → Carries lib.json version_request (path, version)
      → run lib local s
          (command_of lib.json op_secret_get_version (some (version_request, (path, version))))
        ≡ (s, answer secret_value (get_version s.secrets path version))
  unfolding store_handler handle_secret_get_version
  run-get path version c =
      run-op lib local s op_secret_get_version (some (version_request, (path, version)))
      ∙ ap (λ o. (s, o))
          (with_payload-some lib version_request _
            (λ x. answer secret_value (get_version s.secrets x.0 x.1)) (path, version) c)

  -- GetVersion through the client gives what GetVersion of the in-memory repository gives on the
  -- replicated store, under the same conditions.
  pub secret_get_version-refines :
      (path : Text) (version : ℕ)
      → IsLinear lib local node
      → Carries lib.json version_request (path, version)
      → Travels lib
          (command_of lib.json op_secret_get_version (some (version_request, (path, version))))
          (response_of lib.json (answer secret_value (get_version s.secrets path version)))
      → CarriesResult lib.json secret_value (get_version s.secrets path version)
      → secret_get_version lib.json node s path version
        ≡ filled (get_version s.secrets path version)
  unfolding secret_get_version
  secret_get_version-refines path version l c t r =
      let payload : Any = some (version_request, (path, version)) in
      let done = run-get path version c in
      let sent : Sent lib local node s op_secret_get_version payload = rw done t in
      read-reply lib local node s op_secret_get_version payload secret_value l sent refl
      ∙ (ap (λ o. and_then (data_of lib.json o.1) (read_data lib.json secret_value)) done
          ∙ data_of-answer lib.json secret_value (get_version s.secrets path version) r)
