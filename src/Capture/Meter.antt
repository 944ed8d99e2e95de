-- ===== src/Capture/Meter.antt =====
-- sidecar/reviewer/transcript.py, `_Meter`: the figures of a feed. `loads` is `json.loads`, and
-- `encoded_size` the length of a text in UTF-8, which a lone surrogate does not have.
use fuko_pr.Prelude.{
  ℕ, ◌+◌, String, Bool, true, false, Option, none, some, List, [], ◌∷◌, ltb, ◌==◌, text_eq, get,
  put, if◌then◌else◌,
}

-- A JSON value, with the values that the meter does not read in one.
mutual
  pub data Json : Type 0 where
    other : Json
    str : String → Json
    list : Items → Json
    object : Fields → Json

  pub data Items : Type 0 where
    nil : Items
    cons : Json → Items → Items

  pub data Fields : Type 0 where
    end : Fields
    field : String → Json → Fields → Fields

-- What `json.loads` does with a line; an exception that is no ValueError is `raised`.
pub data Parsed : Type 0 where
  json : Json → Parsed
  not_json raised : Parsed

unfoldable pub field_of : String → Fields → Option Json
field_of key end = none
field_of key (field k v fs) = if k == key then some v else field_of key fs

-- `value.get(key)` where `value` may be no dict
unfoldable pub get_field : String → Option Json → Option Json
unfolding field_of
get_field key (some (object fs)) = field_of key fs
get_field key (some other) = none
get_field key (some (str s)) = none
get_field key (some (list xs)) = none
get_field key none = none

abbrev pub is_text : String → Option Json → Bool
is_text s (some (str t)) = t == s
is_text s (some other) = false
is_text s (some (list xs)) = false
is_text s (some (object fs)) = false
is_text s none = false

abbrev pub items_of : Option Json → Items
items_of (some (list xs)) = xs
items_of (some other) = nil
items_of (some (str s)) = nil
items_of (some (object fs)) = nil
items_of none = nil

-- `_blocks`
unfoldable pub blocks : Json → Items
unfolding get_field
blocks event = items_of (get_field "content" (get_field "message" (some event)))

pub record Meter : Type 0 where
  pub tool_calls : List (String × ℕ)
  pub tool_result_bytes : ℕ
  pub complete : Bool
  pub broken : Bool
  pub reads : List (String × ℕ)

abbrev pub fresh_meter : Meter
fresh_meter = record {
  tool_calls = [];
  tool_result_bytes = 0;
  complete = false;
  broken = false;
  reads = [];
}

abbrev pub count_of : Option ℕ → ℕ
count_of none = 0
count_of (some n) = n

-- `counts[key] = counts.get(key, 0) + 1`
unfoldable pub count_one : List (String × ℕ) → String → List (String × ℕ)
unfolding get put
count_one counts key = put counts key (count_of (get counts key) + 1)

-- `isinstance(value, str) and value`
abbrev pub filled_text : Option Json → Option String
filled_text (some (str s)) = if s == "" then none else some s
filled_text (some other) = none
filled_text (some (list xs)) = none
filled_text (some (object fs)) = none
filled_text none = none

abbrev pub name_of : Option String → String
name_of none = "?"
name_of (some s) = s

abbrev pub note_read : Meter → Option String → Meter
note_read m none = m
note_read m (some path) = record m { reads = count_one m.reads path }

-- One block of `_assistant`, with `_read`
unfoldable pub assistant_block : Meter → Json → Meter
unfolding get_field count_one
assistant_block m block =
    let name = name_of (filled_text (get_field "name" (some block))) in
    let counted = record m { tool_calls = count_one m.tool_calls name } in
    if is_text "tool_use" (get_field "type" (some block))
    then (if name == "Read"
        then note_read counted
            (filled_text (get_field "file_path" (get_field "input" (some block))))
        else counted)
    else m

unfoldable pub assistant : Meter → Items → Meter
unfolding assistant_block
assistant m nil = m
assistant m (cons x xs) = assistant (assistant_block m x) xs

-- `sum(1 for count in self._reads.values() if count > 1)`
unfoldable pub repeated_read_files : List (String × ℕ) → ℕ
repeated_read_files [] = 0
repeated_read_files ((path, n) ∷ reads) = (if ltb 1 n then 1 else 0) + repeated_read_files reads

module _ (loads : String → Parsed) (encoded_size : String → Option ℕ) where
  -- The sum over the blocks of a list, from the last; `none` is an exception.
  unfoldable pub text_bytes_of : Items → Option ℕ
  unfolding get_field
  text_bytes_of nil = some 0
  text_bytes_of (cons x xs) =
      let rest = text_bytes_of xs in
      elim (get_field "text" (some x)) [
        | some (str s) ↦ elim (encoded_size s) [
          | none ↦ none
          | some n ↦ elim rest [ none ↦ none | some total ↦ some (n + total) ]
        ]
        | _ ↦ rest
      ]

  -- `_text_bytes`
  unfoldable pub text_bytes : Option Json → Option ℕ
  unfolding text_bytes_of
  text_bytes (some (str s)) = encoded_size s
  text_bytes (some (list xs)) = text_bytes_of xs
  text_bytes (some other) = some 0
  text_bytes (some (object fs)) = some 0
  text_bytes none = some 0

  -- `_tool_results`; an exception ends the loop and, in `feed`, breaks the meter.
  unfoldable pub tool_results : Meter → Items → Meter
  unfolding text_bytes get_field
  tool_results m nil = m
  tool_results m (cons x xs) = elim (text_bytes (get_field "content" (some x))) [
    | none ↦
        if is_text "tool_result" (get_field "type" (some x))
        then record m { broken = true }
        else tool_results m xs
    | some n ↦
        tool_results
          (if is_text "tool_result" (get_field "type" (some x))
            then record m { tool_result_bytes = m.tool_result_bytes + n }
            else m)
          xs
  ]

  -- `_feed` on a value
  unfoldable pub feed_json : Meter → Json → Meter
  unfolding get_field blocks assistant tool_results
  feed_json m event =
      let kind = get_field "type" (some event) in
      if is_text "assistant" kind
      then assistant m (blocks event)
      else (if is_text "user" kind
          then tool_results m (blocks event)
          else (if is_text "result" kind then record m { complete = true } else m))

  -- `feed`
  unfoldable pub feed : Meter → String → Meter
  unfolding feed_json
  feed m line = elim (loads line) [
    | json event ↦ feed_json m event
    | not_json ↦ m
    | raised ↦ record m { broken = true }
  ]

  unfoldable pub feed_all : Meter → List String → Meter
  unfolding feed
  feed_all m [] = m
  feed_all m (line ∷ lines) = feed_all (feed m line) lines
