-- ===== src/Common/RequestSource.antt =====
-- Request sources: source/common/request_source_impl.{h,cc}, StaticRequestSourceImpl, and
-- source/request_source/request_options_list_plugin_impl.cc, OptionsListRequestSource.
pub mod Yields
pub mod RoundRobin
mod Tests
use text.Mathlib.Text.{◌==◌ as str_eq}
use nighthawk.Base.{
  ℕ, zero, suc, ◌+◌, ◌%◌, Bool, true, false, not, ◌&&◌, if◌then◌else◌, ltb, leb, ◌==◌, dec64, List,
  [], ◌∷◌, Option, none, some, String, length, get_elem?,
}

-- StaticRequestSourceImpl::get(): one call of the generator, on yields_left_, a uint64_t. The
-- decrement of `while (yields_left_--)` takes place whether or not the test passes.
unfoldable pub static_next : {R : Type 0} → R → ℕ → Option R × ℕ
static_next header yields_left =
    if not (yields_left == 0) then (some header, dec64 yields_left) else (none, dec64 yields_left)

-- An entry of a header map, which is the list of its entries.
pub record Header : Type 0 where
  pub name : String
  pub value : String

-- nighthawk.client.RequestOptions; the method by its name.
pub record RequestOptions : Type 0 where
  pub request_method : String
  pub json_body : String
  pub request_body_size : ℕ
  pub request_headers : List Header

pub record Request : Type 0 where
  pub header : List Header
  pub body : String

-- What the source takes from the libraries: the size of a string in bytes, the decimal form of a
-- content length, the lower-case form of a header name, and the header map with a value set.
pub record Text : Type 0 where
  pub size : String → ℕ
  pub decimal : ℕ → String
  pub lower_case : String → String
  pub set_header : String → String → List Header → List Header

module _ (text : Text) where
  unfoldable pub set_all : List Header → List Header → List Header
  set_all [] hs = hs
  set_all (h ∷ options) hs = set_all options (text.set_header (text.lower_case h.name) h.value hs)

  -- The request that one entry of the list describes, on top of the default header.
  unfoldable pub build_request : List Header → RequestOptions → Request
  unfolding set_all
  build_request defaults o =
      let has_json = not (str_eq o.json_body "") in
      let content_length =
        (if has_json then text.size o.json_body else o.request_body_size) % 4294967296 in
      let with_method = text.set_header ":method" o.request_method defaults in
      let with_length =
        (if ltb 0 content_length
          then text.set_header "content-length" (text.decimal content_length) with_method
          else with_method) in
      let with_type =
        (if has_json
          then text.set_header "content-type" "application/json" with_length
          else with_length) in
      record { header = set_all o.request_headers with_type; body = o.json_body }

  -- One call of the generator of OptionsListRequestSource::get(), on its own counter, a uint32_t.
  -- Option::at() cannot fail here, since the index is below the size.
  unfoldable pub options_list_next : List RequestOptions → ℕ → List Header → ℕ → Option Request × ℕ
  unfolding build_request
  options_list_next options total_requests defaults counter =
      let default_request : Request = record { header = defaults; body = "" } in
      let chosen = get_elem? options (counter % length options) in
      if leb total_requests counter && not (total_requests == 0)
      then (none, counter)
      else (if length options == 0 then (some default_request, counter) else (elim chosen [
        | none ↦ (none, counter)
        | some o ↦ (some (build_request defaults o), (counter + 1) % 4294967296)
      ]))
