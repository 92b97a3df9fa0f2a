-- ===== src/Llm/Mock.antt =====
-- src/orchestra/llm/mock_async.py. A contract's responses are a queue of texts or a function of the
-- metadata; the delay and the two counters of active calls are left out, since each call takes back
-- what it adds to them.
use Prim.Native.String.{String}
use codename_madagascar.Prelude.Texts.{text_length}
use codename_madagascar.Prelude.{
  ℕ, suc, ◌+◌, ◌/◌, Option, none, some, List, [], ◌∷◌, ◌++◌, Dict, lookup, insert, lookup-insert,
  map, count, count-append, ◌==◌, string_eq, eq_iff, Result, ok, err, ◌>>=◌, or_raise, >>=-eq-ok,
  ok-injective, if◌then◌else◌, ◌≡◌, ◌∙◌, refl, ap, subst, arith,
}
use codename_madagascar.Exceptions.{Exception, runtime_error, index_error}

pub data Source : Type 0 where
  queue : List String → Source
  function : (Dict String String → String) → Source

pub record Call : Type 0 where
  pub contract_id : String
  pub messages : List (String × String)
  pub metadata : Dict String String

pub record MockClient : Type 0 where
  pub responses : Dict String Source
  pub calls : List Call
  pub call_counts : Dict String ℕ

-- `LLMResponse`, without the latency and the text of the provider.
pub record LlmResponse : Type 0 where
  pub text : String
  pub model : String
  pub prompt_tokens : ℕ
  pub completion_tokens : ℕ
  pub total_tokens : ℕ

-- An empty queue is false, so that `or` passes it over.
abbrev pub if_truthy : Option Source → Option Source
if_truthy (some (queue [])) = none
if_truthy source = source

abbrev pub or_else : Option (String × Source) → Option (String × Source) → Option (String × Source)
or_else none second = second
or_else (some first) second = some first

abbrev pub named : String → Option Source → Option (String × Source)
named key none = none
named key (some source) = some (key, source)

-- `responses.get(contract_id) or responses.get("default")`, with the key that was used. An empty
-- default queue is the source that is left.
unfoldable pub source_of : String → Dict String Source → Option (String × Source)
source_of contract_id responses =
    or_else (named contract_id (if_truthy (lookup contract_id responses)))
      (named "default" (lookup "default" responses))

-- The text, and the responses after it is taken.
unfoldable pub take_text :
    Dict String String
    → Dict String Source
    → String × Source
    → Result Exception (String × Dict String Source)
take_text metadata responses (key, function f) = ok (f metadata, responses)
take_text metadata responses (key, queue []) = err index_error
take_text metadata responses (key, queue (text ∷ texts)) =
    ok (text, insert key (queue texts) responses)

abbrev get_or : {A : Type 0} → A → Option A → A
get_or default none = default
get_or default (some value) = value

-- `sum(len(item["content"]) for item in messages)`
unfoldable pub content_length : List (String × String) → ℕ
content_length [] = 0
content_length (message ∷ messages) = text_length message.1 + content_length messages

-- `generate`
unfoldable pub generate :
    (messages : List (String × String)) (model : String)
    → Dict String String
    → MockClient
    → Result Exception (LlmResponse × MockClient)
generate messages model metadata client = do
  let contract_id = get_or "default" (lookup "contract_id" metadata)
  source ← or_raise (source_of contract_id client.responses) runtime_error
  (text, responses) ← take_text metadata client.responses source
  let prompt_tokens = content_length messages / 4
  let completion_tokens = text_length text / 4
  ok (
    record {
      text = text;
      model = model;
      prompt_tokens = prompt_tokens;
      completion_tokens = completion_tokens;
      total_tokens = prompt_tokens + completion_tokens;
    },
    record {
      responses = responses;
      calls =
          client.calls
          ++ (record { contract_id = contract_id; messages = messages; metadata = metadata } ∷ []);
      call_counts =
          insert contract_id (suc (get_or 0 (lookup contract_id client.call_counts)))
            client.call_counts;
    },
  )

abbrev contract_of : Call → String
contract_of call = call.contract_id

-- The counts of calls agree with the calls that are recorded.
abbrev pub IsCounted : MockClient → Type 0
IsCounted client =
    (key : String)
    → get_or 0 (lookup key client.call_counts) ≡ count key (map contract_of client.calls)

map-append :
    (xs ys : List Call) → map contract_of (xs ++ ys) ≡ map contract_of xs ++ map contract_of ys
map-append [] ys = refl
map-append (x ∷ xs) ys = cc (map-append xs ys)

count-call :
    (key : String) (calls : List Call) (call : Call)
    → count key (map contract_of (calls ++ (call ∷ [])))
      ≡ count key (map contract_of calls) + (if call.contract_id == key then 1 else 0)
count-call key calls call =
    ap (count key) (map-append calls (call ∷ []))
    ∙ count-append key (map contract_of calls) (call.contract_id ∷ [])
    ∙ omega arith

get_or-insert :
    (name key : String) (n : ℕ) (d : Dict String ℕ)
    → get_or 0 (lookup key (insert name n d)) ≡ (if name == key then n else get_or 0 (lookup key d))
get_or-insert name key n d = ground (arith, lookup-insert name key n d)

-- Each call that gives a response is recorded and counted once, under its contract.
pub generate-IsCounted :
    (messages : List (String × String)) (model : String) (metadata : Dict String String)
    (client next : MockClient) (answer : LlmResponse)
    → IsCounted client
    → generate messages model metadata client ≡ ok (answer, next)
    → IsCounted next
unfolding generate
generate-IsCounted messages model metadata client next answer counted h =
    let contract_id = get_or "default" (lookup "contract_id" metadata) in
    let (source, _, h₁) =
      >>=-eq-ok (or_raise (source_of contract_id client.responses) runtime_error) _ h in
    let ((text, responses), _, h₂) = >>=-eq-ok (take_text metadata client.responses source) _ h₁ in
    subst (λ (r : LlmResponse × MockClient). IsCounted r.1) (ok-injective h₂)
      (λ key. ground (
        arith,
        counted key,
        counted contract_id,
        get_or-insert contract_id key (suc (get_or 0 (lookup contract_id client.call_counts)))
            client.call_counts,
        count-call key client.calls
            (record { contract_id = contract_id; messages = messages; metadata = metadata }),
        eq_iff contract_id key,
      ))
