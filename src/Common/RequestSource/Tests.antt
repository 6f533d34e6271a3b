-- ===== src/Common/RequestSource/Tests.antt =====
-- Concrete request sources.
use nighthawk.Base.{
  ◌%◌, ◌≡◌, ◌↔◌, refl, none, some, arith, List, [], ◌∷◌, word_size, String, if◌then◌else◌, ◌==◌,
  length, get_elem?,
}
use mathlib.Core.Option
use nighthawk.Common.RequestSource.{RequestOptions, Text, build_request, options_list_next}
use nighthawk.Common.RequestSource.Yields.{static_answer, static_answer-eq-none}
use nighthawk.Common.RequestSource.RoundRobin.{counter_after, list_answer, list_answer_lem}

-- Two requests, then nothing once, and then requests again.
static_run :
    (static_answer {R = String} "get" 2 1 ≡ some "get")
    × (static_answer {R = String} "get" 2 2 ≡ none)
    × (static_answer {R = String} "get" 2 3 ≡ some "get")
unfolding static_answer
static_run = (refl, refl, refl)

static_answer-eq-none_example : (static_answer {R = String} "get" 2 2 ≡ none) ↔ (2 % word_size ≡ 2)
static_answer-eq-none_example = static_answer-eq-none {R = String} "get" 2 2 (omega arith)

abbrev text : Text
text = record {
  size = λ s. 2;
  decimal = λ n. if n == 2 then "2" else "5";
  lower_case = λ s. s;
  set_header = λ name value hs. record { name = name; value = value } ∷ hs;
}

abbrev options : List RequestOptions
options =
    record { request_method = "GET"; json_body = ""; request_body_size = 5; request_headers = [] }
    ∷ record {
      request_method = "POST";
      json_body = "{}";
      request_body_size = 0;
      request_headers = record { name = "a"; value = "b" } ∷ [];
    }
    ∷ []

second_request :
    list_answer text options 3 [] 1
    ≡ some (record {
      header =
          record { name = "a"; value = "b" }
          ∷ record { name = "content-type"; value = "application/json" }
          ∷ record { name = "content-length"; value = "2" }
          ∷ record { name = ":method"; value = "POST" }
          ∷ [];
      body = "{}";
    })
unfolding counter_after options_list_next
second_request = refl

list_answer_lem_example :
    list_answer text options 3 [] 2
    ≡ Option.map (build_request text []) (get_elem? options (2 % length options))
list_answer_lem_example =
    list_answer_lem text options 3 [] (omega arith) (omega arith) 2 (omega arith)
