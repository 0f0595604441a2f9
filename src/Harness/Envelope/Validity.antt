-- ===== src/Harness/Envelope/Validity.antt =====
-- The envelopes that `parseCommandEnvelope` of command-protocol.ts returns.
use trax_os.Common.{
  ◌==◌, any, not, guard, subst, WhenOk-test, guard-eq-ok, WhenOk-eq-ok, ℕ, String, Bool, true,
  false, Option, none, some, List, [], ◌∷◌, ◌≡◌, refl, ok, WhenOk, WhenOk-bind, WhenOk-guard,
}
use trax_os.Common.Json.{lookup, array, number, text, Value, Values, no_values, item}
use trax_os.Harness.Format.{is_uuid, is_command_uuid}
use trax_os.Harness.Protocol.{Command, CommandType, update, soft_delete}
use trax_os.Harness.Envelope.{
  command_type, not_a_uuid, unsupported_protocol, duplicate_command, duplicate_target,
  unsupported_protocol, not_a_uuid, is_number_one, lowered_id, envelope_keys, command_keys,
  exact_keys, record_of, pos, is_undefined, integer, parse_commands, one_element, payload_of,
  positive_integer, bounded_string, Envelope, is_bounded, is_positive_safe, parse_command,
  parse_command_envelope,
}

-- An update has a payload of at most 512 code units, a deletion has none.
abbrev pub has_payload : CommandType → Option String → Bool
has_payload update (some s) = is_bounded 512 s
has_payload soft_delete none = true
has_payload _ _ = false

pub record IsValidCommand (c : Command) : Type 0 where
  pub id : is_command_uuid c.command_id ≡ true
  pub resource : is_uuid c.resource_id ≡ true
  pub incarnation : is_uuid c.resource_incarnation_id ≡ true
  pub version : is_positive_safe c.expected_record_version ≡ true
  pub payload : has_payload c.kind c.payload ≡ true

abbrev pub IsOne : List Command → Type 0
IsOne cs = (c : Command) × (cs ≡ c ∷ []) × IsValidCommand c

pub record IsValidEnvelope (e : Envelope) : Type 0 where
  pub replica : is_uuid e.replica_id ≡ true
  pub epoch : is_positive_safe e.replica_epoch ≡ true
  pub transaction : is_bounded 128 e.local_transaction_id ≡ true
  pub one : IsOne e.commands

bounded_string-is_bounded :
    (maximum : ℕ) (v : Value) → WhenOk (λ s. is_bounded maximum s ≡ true) (bounded_string maximum v)
unfolding bounded_string
bounded_string-is_bounded maximum (text s) = WhenOk-test _ (is_bounded maximum s) s _ (λ h. h)
bounded_string-is_bounded maximum _ = tt

positive_integer-is_positive_safe :
    (v : Value) → WhenOk (λ n. is_positive_safe n ≡ true) (positive_integer v)
unfolding positive_integer
positive_integer-is_positive_safe (number (integer (pos n))) =
    WhenOk-test _ (is_positive_safe n) n _ (λ h. h)
positive_integer-is_positive_safe _ = tt

payload_of-has_payload :
    (kind : CommandType) (v : Value) → WhenOk (λ p. has_payload kind p ≡ true) (payload_of kind v)
unfolding payload_of
payload_of-has_payload update v =
    WhenOk-bind _ (bounded_string 512 v) _
      (λ s e. WhenOk-eq-ok _ _ (bounded_string-is_bounded 512 v) e)
payload_of-has_payload soft_delete v = WhenOk-guard _ (is_undefined v) _ _ (λ e. refl)

valid_command :
    (id resource incarnation : String) (kind : CommandType) (version : ℕ) (payload : Option String)
    → is_command_uuid id ≡ true
    → is_uuid resource ≡ true
    → is_uuid incarnation ≡ true
    → is_positive_safe version ≡ true
    → has_payload kind payload ≡ true
    → IsValidCommand (record {
      command_id = id;
      kind = kind;
      resource_id = resource;
      resource_incarnation_id = incarnation;
      expected_record_version = version;
      payload = payload;
    })
valid_command id resource incarnation kind version payload h0 h1 h2 h3 h4 = record {
  id = h0;
  resource = h1;
  incarnation = h2;
  version = h3;
  payload = h4;
}

parse_command-IsValidCommand :
    (seen targets : List String) (raw : Value)
    → WhenOk IsValidCommand (parse_command seen targets raw)
unfolding parse_command
parse_command-IsValidCommand seen targets raw =
    WhenOk-bind IsValidCommand (record_of raw) _ (λ fields e0.
      WhenOk-bind IsValidCommand (exact_keys command_keys fields) _ (λ u0 e1.
        WhenOk-bind IsValidCommand (lowered_id (lookup fields "commandId")) _ (λ command_id e2.
          WhenOk-bind IsValidCommand (lowered_id (lookup fields "resourceId")) _ (λ resource_id e3.
            WhenOk-bind IsValidCommand (lowered_id (lookup fields "resourceIncarnationId")) _
              (λ incarnation e4.
                WhenOk-bind IsValidCommand (guard (is_command_uuid command_id) not_a_uuid) _
                  (λ u1 id.
                    WhenOk-bind IsValidCommand (guard (is_uuid resource_id) not_a_uuid) _
                      (λ u2 resource.
                        WhenOk-bind IsValidCommand (guard (is_uuid incarnation) not_a_uuid) _
                          (λ u3 target.
                            WhenOk-bind IsValidCommand (command_type (lookup fields "type")) _
                              (λ kind e5.
                                WhenOk-bind IsValidCommand
                                  (positive_integer (lookup fields "expectedRecordVersion")) _
                                  (λ version safe.
                                    WhenOk-bind IsValidCommand
                                      (payload_of kind (lookup fields "payload")) _
                                      (λ payload fitting.
                                        WhenOk-bind IsValidCommand
                                          (guard (not (any (λ k. k == command_id) seen))
                                            duplicate_command)
                                          _
                                          (λ u4 e6.
                                            WhenOk-bind IsValidCommand
                                              (guard (not (any (λ k. k == resource_id) targets))
                                                duplicate_target)
                                              _
                                              (λ u5 e7.
                                                valid_command command_id resource_id incarnation
                                                  kind version payload (guard-eq-ok _ _ id)
                                                  (guard-eq-ok _ _ resource)
                                                  (guard-eq-ok _ _ target)
                                                  (WhenOk-eq-ok _ _
                                                    (positive_integer-is_positive_safe _) safe)
                                                  (WhenOk-eq-ok _ _ (payload_of-has_payload kind _)
                                                    fitting))))))))))))))

one_element-item :
    (v : Value) → WhenOk (λ raw. (x : Value) × (raw ≡ item x no_values)) (one_element v)
unfolding one_element
one_element-item (array (item x no_values)) = (x, refl)
one_element-item _ = tt

parse_commands-IsOne : (x : Value) → WhenOk IsOne (parse_commands [] [] (item x no_values))
unfolding parse_commands
parse_commands-IsOne x =
    WhenOk-bind IsOne (parse_command [] [] x) _
      (λ c e. (c, refl, WhenOk-eq-ok _ _ (parse_command-IsValidCommand [] [] x) e))

IsOne-parse_commands :
    (raw : Values) (cs : List Command)
    → (x : Value) × (raw ≡ item x no_values)
    → parse_commands [] [] raw ≡ ok cs
    → IsOne cs
IsOne-parse_commands raw cs (x, single) e =
    WhenOk-eq-ok IsOne (parse_commands [] [] (item x no_values)) (parse_commands-IsOne x)
      (subst (λ r. parse_commands [] [] r ≡ ok cs) single e)

valid_envelope :
    (replica : String) (epoch : ℕ) (transaction : String) (cs : List Command)
    → is_uuid replica ≡ true
    → is_positive_safe epoch ≡ true
    → is_bounded 128 transaction ≡ true
    → IsOne cs
    → IsValidEnvelope (record {
      replica_id = replica;
      replica_epoch = epoch;
      local_transaction_id = transaction;
      commands = cs;
    })
valid_envelope replica epoch transaction cs h0 h1 h2 h3 = record {
  replica = h0;
  epoch = h1;
  transaction = h2;
  one = h3;
}

WhenOk-parse_command_envelope :
    (value : Value) → WhenOk IsValidEnvelope (parse_command_envelope value)
unfolding parse_command_envelope
WhenOk-parse_command_envelope value = WhenOk-bind IsValidEnvelope (record_of value) _ (λ input e0.
    WhenOk-bind IsValidEnvelope (exact_keys envelope_keys input) _ (λ u0 e1.
      WhenOk-bind IsValidEnvelope
        (guard (is_number_one (lookup input "spikeProtocol")) unsupported_protocol) _
        (λ u1 e2.
          WhenOk-bind IsValidEnvelope (lowered_id (lookup input "replicaId")) _ (λ replica_id e3.
            WhenOk-bind IsValidEnvelope (guard (is_uuid replica_id) not_a_uuid) _ (λ u2 replica.
              WhenOk-bind IsValidEnvelope (positive_integer (lookup input "replicaEpoch")) _
                (λ epoch safe.
                  WhenOk-bind IsValidEnvelope
                    (bounded_string 128 (lookup input "localTransactionId")) _
                    (λ transaction bounded.
                      WhenOk-bind IsValidEnvelope (one_element (lookup input "commands")) _
                        (λ raw single.
                          WhenOk-bind IsValidEnvelope (parse_commands [] [] raw) _
                            (λ commands parsed.
                              valid_envelope replica_id epoch transaction commands
                                (guard-eq-ok _ _ replica)
                                (WhenOk-eq-ok _ _ (positive_integer-is_positive_safe _) safe)
                                (WhenOk-eq-ok _ _ (bounded_string-is_bounded 128 _) bounded)
                                (IsOne-parse_commands raw commands
                                  (WhenOk-eq-ok _ _ (one_element-item _) single) parsed))))))))))

-- What the parser returns has UUIDs in lower case for the replica and for a command's resource and
-- incarnation, and a UUID of version 4 for its id, an epoch and a version that are positive safe
-- integers, a transaction's id of 1 to 128 code units, one command, and a payload of 1 to 512 code
-- units if the command is an update and none if it is a deletion.
pub parse_command_envelope-IsValidEnvelope :
    (value : Value) (e : Envelope) → parse_command_envelope value ≡ ok e → IsValidEnvelope e
parse_command_envelope-IsValidEnvelope value e h =
    WhenOk-eq-ok IsValidEnvelope (parse_command_envelope value)
      (WhenOk-parse_command_envelope value) h
