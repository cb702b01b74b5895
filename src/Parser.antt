-- ===== src/Parser.antt =====
-- fetcher/parser.py. `feedparser.parse` is third-party code: what it returns for a body is data of
-- the types below, which hold what the program reads of it. `datetime(...)` on the fields of a
-- `struct_time` is a parameter; its exceptions are `none`.
use feedgate_fetcher.Prelude.{ℕ, ◌*◌, String, Option, none, some, List, map, if◌then◌else◌}
use feedgate_fetcher.Prelude.Texts.{codes}
use feedgate_fetcher.Prelude.Ints.{nonneg_int}
use feedgate_fetcher.Upsert.{ParsedEntry}
use mathlib.Core.Option
use text.Mathlib.Text.{◌==◌ as str_eq}

-- `fp_entry["content"]`: the first item of the list, if there is one, and its "value"
pub data Content : Type 0 where
  no_items : Content
  not_a_dict : Content
  value : Option String → Content

pub record RawEntry : Type 0 where
  pub id : Option String
  pub link : Option String
  pub title : Option String
  pub author : Option String
  pub content : Content
  pub summary : Option String
  pub published_parsed : Option (List ℕ)
  pub updated_parsed : Option (List ℕ)

pub record RawFeed : Type 0 where
  pub title : Option String
  pub ttl : Option String
  pub entries : List RawEntry

pub record ParsedFeed : Type 0 where
  pub title : Option String
  pub ttl_seconds : Option ℕ
  pub entries : List ParsedEntry

-- a text that is there and not empty
abbrev pub truthy : Option String → Option String
truthy none = none
truthy (some s) = if str_eq s "" then none else some s

abbrev pub or_text : Option String → Option String → Option String
or_text none other = other
or_text (some s) other = some s

abbrev pub or_blank : Option String → String
or_blank none = ""
or_blank (some s) = s

abbrev first_value : Content → Option String
first_value (value v) = truthy v
first_value no_items = none
first_value not_a_dict = none

unfoldable pub extract_content : RawEntry → Option String
extract_content fp_entry = or_text (first_value fp_entry.content) (truthy fp_entry.summary)

-- the `guid` and the `url` of an entry
unfoldable pub extract_guid : RawEntry → String
extract_guid fp_entry = or_blank (or_text (truthy fp_entry.id) (truthy fp_entry.link))

unfoldable pub extract_url : RawEntry → String
unfolding extract_guid
extract_url fp_entry = or_blank (or_text (truthy fp_entry.link) (some (extract_guid fp_entry)))

abbrev or_struct : Option (List ℕ) → Option (List ℕ) → Option (List ℕ)
or_struct none other = other
or_struct (some st) other = some st

module _ (to_datetime : List ℕ → Option ℕ) where
  unfoldable pub struct_time_to_datetime : Option (List ℕ) → Option ℕ
  struct_time_to_datetime none = none
  struct_time_to_datetime (some st) = to_datetime st

  unfoldable pub extract_entry : RawEntry → ParsedEntry
  unfolding extract_guid extract_url extract_content struct_time_to_datetime
  extract_entry fp_entry = record {
    guid = extract_guid fp_entry;
    url = extract_url fp_entry;
    title = fp_entry.title;
    content = extract_content fp_entry;
    author = fp_entry.author;
    published_at =
        struct_time_to_datetime (or_struct fp_entry.published_parsed fp_entry.updated_parsed);
  }

  -- what `_parse_sync` makes of feedparser's result
  unfoldable pub parse_sync : RawFeed → ParsedFeed
  unfolding extract_entry nonneg_int
  parse_sync parsed = record {
    title = parsed.title;
    ttl_seconds = Option.bind parsed.ttl (λ raw. Option.map (λ n. n * 60) (nonneg_int (codes raw)));
    entries = map extract_entry parsed.entries;
  }
