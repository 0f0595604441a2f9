-- ===== src/Harness/Reply/Answers.antt =====
-- What `parseCommandResponse` of command-protocol.ts accepts.
use trax_os.Common.{
  ◌&&◌, suc, WhenOk-guard, ap, ◌||◌, eqb, ◌∙◌, subst, String, Bool, true, some, List, [], ◌∷◌, ◌==◌,
  ◌≡◌, refl, any, length, arith, WhenOk, WhenOk-bind, WhenOk-eq-ok, ok, All,
}
use trax_os.Common.Json.{is_array, elements, Value, Values, Fields, no_values, item, lookup}
use trax_os.Harness.Protocol.{Command, Binding, command_digest}
use trax_os.Harness.Envelope.{is_number_one, record_of, exact_keys}
use trax_os.Harness.Reply.{
  value_count, known, result_keys, state_names, code_names, expected, forget, is_this,
  positive_version, expected_state, string_of, parse_result, parse_results, parse_command_response,
}
use trax_os.Harness.Reply.Expecting.{
  expected-forget, has_id, has_id-forget, known-eq-ok, expected-has_id, or_step,
}

module _ (hash : Value → String) (other : Value → String) (binding : Binding) where
  -- The result is of one of the commands. Its `commandId` as a string is the id of that command,
  -- and it has its resource and its digest. Its state and, as a string, its code are known ones, and
  -- the state is the one of the code, where a code that is no text has the state of "applied". The
  -- versions and the attempt are positive safe integers.
  pub record IsAnswer (cs : List Command) (result : Fields) : Type 0 where
    pub command : Command
    pub found : expected cs (string_of hash other (lookup result "commandId")) ≡ some command
    pub resource : is_this command.resource_id (lookup result "resourceId") ≡ true
    pub digest : is_this (command_digest hash command binding) (lookup result "digest") ≡ true
    pub known_state : any (λ s. is_this s (lookup result "state")) state_names ≡ true
    pub known_code : any (λ s. s == string_of hash other (lookup result "code")) code_names ≡ true
    pub state : is_this (expected_state (lookup result "code")) (lookup result "state") ≡ true
    pub previous : positive_version (lookup result "previousVersion") ≡ true
    pub current : positive_version (lookup result "currentVersion") ≡ true
    pub attempt : positive_version (lookup result "attemptNumber") ≡ true

  IsAnswer-forget :
      (k : String) (cs : List Command) (result : Fields)
      → IsAnswer (forget k cs) result
      → IsAnswer cs result
  IsAnswer-forget k cs result h = record {
    command = h.command;
    found = expected-forget k _ cs h.found;
    resource = h.resource;
    digest = h.digest;
    known_state = h.known_state;
    known_code = h.known_code;
    state = h.state;
    previous = h.previous;
    current = h.current;
    attempt = h.attempt;
  }

  abbrev pub has_reply : String → List Fields → Bool
  has_reply k = any (λ f. string_of hash other (lookup f "commandId") == k)

  -- The accepted results, and the commands that are expected after them.
  record IsParsed (cs : List Command) (parsed : List Fields × List Command) : Type 0 where
    pub each : All (IsAnswer cs) parsed.0
    pub every :
        (k : String) → has_id k cs ≡ true → (has_reply k parsed.0 || has_id k parsed.1) ≡ true

  abbrev First : List Command → Fields × List Command → Type 0
  First cs (f, rest) =
      IsAnswer cs f × (rest ≡ forget (string_of hash other (lookup f "commandId")) cs)

  First-answer :
      (cs : List Command) (result : Fields) (c : Command)
      → expected cs (string_of hash other (lookup result "commandId")) ≡ some c
      → is_this c.resource_id (lookup result "resourceId") ≡ true
      → is_this (command_digest hash c binding) (lookup result "digest") ≡ true
      → any (λ s. is_this s (lookup result "state")) state_names ≡ true
      → any (λ s. s == string_of hash other (lookup result "code")) code_names ≡ true
      → is_this (expected_state (lookup result "code")) (lookup result "state") ≡ true
      → positive_version (lookup result "previousVersion") ≡ true
      → positive_version (lookup result "currentVersion") ≡ true
      → positive_version (lookup result "attemptNumber") ≡ true
      → First cs (result, forget c.command_id cs)
  First-answer cs result c found resource digest known_state known_code state previous current
        attempt =
      (
        record {
          command = c;
          found = found;
          resource = resource;
          digest = digest;
          known_state = known_state;
          known_code = known_code;
          state = state;
          previous = previous;
          current = current;
          attempt = attempt;
        },
        ap (λ k. forget k cs) (expected-has_id _ cs found),
      )

  parse_result-First :
      (cs : List Command) (raw : Value) → WhenOk (First cs) (parse_result hash other binding cs raw)
  unfolding parse_result
  parse_result-First cs raw = WhenOk-bind (First cs) (record_of raw) _ (λ result _.
      WhenOk-bind (First cs) (exact_keys result_keys result) _ (λ _ _.
        WhenOk-bind (First cs)
          (known (expected cs (string_of hash other (lookup result "commandId")))) _
          (λ c found.
            WhenOk-guard (First cs) (is_this c.resource_id (lookup result "resourceId")) _ _
              (λ resource.
                WhenOk-guard (First cs)
                  (is_this (command_digest hash c binding) (lookup result "digest")) _ _
                  (λ digest.
                    WhenOk-guard (First cs)
                      (any (λ s. is_this s (lookup result "state")) state_names) _ _
                      (λ known_state.
                        WhenOk-guard (First cs)
                          (any (λ s. s == string_of hash other (lookup result "code")) code_names) _
                          _
                          (λ known_code.
                            WhenOk-guard (First cs)
                              (is_this (expected_state (lookup result "code"))
                                (lookup result "state"))
                              _ _
                              (λ state.
                                WhenOk-guard (First cs)
                                  (positive_version (lookup result "previousVersion")) _ _
                                  (λ previous.
                                    WhenOk-guard (First cs)
                                      (positive_version (lookup result "currentVersion")) _ _
                                      (λ current.
                                        WhenOk-guard (First cs)
                                          (positive_version (lookup result "attemptNumber")) _ _
                                          (λ attempt.
                                            First-answer cs result c (known-eq-ok _ found) resource
                                              digest known_state known_code state previous current
                                              attempt)))))))))))

  All-forget :
      (k : String) (cs : List Command) (rs : List Fields)
      → All (IsAnswer (forget k cs)) rs
      → All (IsAnswer cs) rs
  All-forget k cs [] h = tt
  All-forget k cs (r ∷ rs) (h, hs) = (IsAnswer-forget k cs r h, All-forget k cs rs hs)

  IsParsed-cons :
      (cs : List Command) (first : Fields × List Command) (rest : List Fields × List Command)
      → First cs first
      → IsParsed first.1 rest
      → IsParsed cs (first.0 ∷ rest.0, rest.1)
  IsParsed-cons cs (f, left) (rs, last) (answer, gone) h =
      let j = string_of hash other (lookup f "commandId") in
      let h' : IsParsed (forget j cs) (rs, last) = subst (λ l. IsParsed l (rs, last)) gone h in
      record {
        each = (answer, All-forget j cs rs h'.each);
        every = λ k e.
            or_step (j == k) (has_id k (forget j cs)) (has_reply k rs) (has_id k last)
              (has_id-forget j k cs e) (h'.every k);
      }

  parse_results-IsParsed :
      (cs : List Command) (raws : Values)
      → WhenOk (IsParsed cs) (parse_results hash other binding cs raws)
  unfolding parse_results
  parse_results-IsParsed cs no_values = record { each = tt; every = λ k h. h }
  parse_results-IsParsed cs (item raw raws) =
      WhenOk-bind (IsParsed cs) (parse_result hash other binding cs raw) _ (λ first e.
        WhenOk-bind (IsParsed cs) (parse_results hash other binding first.1 raws) _ (λ rest f.
          IsParsed-cons cs first rest (WhenOk-eq-ok (First cs) _ (parse_result-First cs raw) e)
            (WhenOk-eq-ok (IsParsed first.1) _ (parse_results-IsParsed first.1 raws) f)))

  -- Every result is of a command, and every command has a result.
  pub record AreAnswers (cs : List Command) (rs : List Fields) : Type 0 where
    pub count : length rs ≡ length cs
    pub each : All (IsAnswer cs) rs
    pub every : (k : String) → has_id k cs ≡ true → has_reply k rs ≡ true

  parse_results-length :
      (cs : List Command) (raws : Values)
      → WhenOk
          (λ x. length x.0 ≡ value_count hash other raws)
          (parse_results hash other binding cs raws)
  unfolding parse_results
  parse_results-length cs no_values = refl
  parse_results-length cs (item raw raws) =
      WhenOk-bind (λ x. length x.0 ≡ suc (value_count hash other raws))
        (parse_result hash other binding cs raw) _
        (λ first e.
          WhenOk-bind (λ x. length x.0 ≡ suc (value_count hash other raws))
            (parse_results hash other binding first.1 raws) _
            (λ rest f. ap suc (
              WhenOk-eq-ok (λ x. length x.0 ≡ value_count hash other raws) _
                (parse_results-length first.1 raws) f)))

  AreAnswers-of_parsed :
      (cs : List Command) (raws : Values) (parsed : List Fields × List Command)
      → value_count hash other raws ≡ length cs
      → length parsed.0 ≡ value_count hash other raws
      → IsParsed cs parsed
      → length parsed.1 ≡ 0
      → AreAnswers cs parsed.0
  AreAnswers-of_parsed cs raws (rs, []) size count h none_left = record {
    count = count ∙ size;
    each = h.each;
    every = λ k e. ground (arith, h.every k e);
  }
  AreAnswers-of_parsed cs raws (rs, c ∷ left) size count h none_left = absurd (omega arith)

  WhenOk-parse_command_response :
      (value : Value) (cs : List Command)
      → WhenOk (AreAnswers cs) (parse_command_response hash other value cs binding)
  unfolding parse_command_response
  WhenOk-parse_command_response value cs =
      WhenOk-bind (AreAnswers cs) (record_of value) _ (λ input _.
        WhenOk-bind (AreAnswers cs) (exact_keys ("spikeProtocol" ∷ "results" ∷ []) input) _ (λ _ _.
          let raws = elements (lookup input "results") in
          WhenOk-guard (AreAnswers cs)
            (is_number_one (lookup input "spikeProtocol")
              && is_array (lookup input "results")
              && eqb (value_count hash other raws) (length cs))
            _ _
            (λ shape.
              WhenOk-bind (AreAnswers cs) (parse_results hash other binding cs raws) _ (λ parsed e.
                WhenOk-guard (AreAnswers cs) (eqb (length parsed.1) 0) _ _ (λ all.
                  AreAnswers-of_parsed cs raws parsed (ground arith)
                    (WhenOk-eq-ok (λ x. length x.0 ≡ value_count hash other raws) _
                      (parse_results-length cs raws) e)
                    (WhenOk-eq-ok (IsParsed cs) _ (parse_results-IsParsed cs raws) e)
                    (ground arith))))))

  -- An accepted answer has as many results as commands were sent. Every result is of one of the
  -- commands, by its `commandId` as a string; it has the resource and the digest of that command, a
  -- known state, as a string a known code, and the state of that code (of "applied" for a code that
  -- is no text), and versions and an attempt that are positive safe integers. Every command has a
  -- result.
  pub parse_command_response-AreAnswers :
      (value : Value) (cs : List Command) (rs : List Fields)
      → parse_command_response hash other value cs binding ≡ ok rs
      → AreAnswers cs rs
  parse_command_response-AreAnswers value cs rs e =
      WhenOk-eq-ok (AreAnswers cs) _ (WhenOk-parse_command_response value cs) e
