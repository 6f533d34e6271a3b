-- ===== src/Client/Factories/Header/Values.antt =====
-- The values in the header of the requests: source/client/factories_impl.cc.
use nighthawk.Base.{
  ℕ, ◌≡◌, refl, sym, ap, ◌∙◌, ◌&&◌, if◌then◌else◌, ltb, Bool-cases, inl, inr, List, [], ◌∷◌, Option,
  none, some,
}
use nighthawk.Base.Chars.{Chars, codes, eq_chars}
use nighthawk.Base.Result.{ok, ok-injective, bind-ok}
use nighthawk.Common.Uri.{UriLibrary}
use nighthawk.Client.Options.{Options}
use nighthawk.Client.Options.Message.{CommandLineOptions, HeaderValueOption, Messages}
use nighthawk.Client.Options.ToMessage.{to_command_line_options}
use nighthawk.Client.Factories.Header.{
  HeaderLibrary, target_of, headers_of, set_request_header, set_request_headers, set_length,
  base_header, create_header,
}

-- Envoy's maps of request headers keep a host header as the :authority pseudo-header, so that a host
-- among the configured headers replaces the host of the URI.
abbrev pub stored_name : Chars → Chars
stored_name name = if eq_chars name (codes "host") then codes ":authority" else name

-- A header map answers with the value that was set last, or added after a removal.
pub record HeaderLaws {H : Type 0} (headers : HeaderLibrary H) : Type 0 where
  pub get : Chars → H → Option Chars
  pub get-create : (n : Chars) → get n headers.create ≡ none
  pub get-set :
      (n k v : Chars) (h : H)
      → get n (headers.set k v h)
        ≡ (if eq_chars (stored_name n) (stored_name k) then some v else get n h)
  pub get-add_copy :
      (n k v : Chars) (h : H)
      → get n (headers.add_copy k v (headers.remove k h))
        ≡ (if eq_chars (stored_name n) (stored_name k) then some v else get n h)

module _ {H : Type 0} (headers : HeaderLibrary H) (laws : HeaderLaws headers) where
  -- The last of the configured values for a name, or the value before.
  abbrev pub last_value : Chars → List HeaderValueOption → Option Chars → Option Chars
  last_value n [] before = before
  last_value n (o ∷ options) before = last_value n options (
      if eq_chars (stored_name n) (stored_name (headers.lower_case_string o.key))
      then some o.value
      else before)

  get-set_request_headers :
      (n : Chars) (options : List HeaderValueOption) (h : H)
      → laws.get n (set_request_headers headers options h) ≡ last_value n options (laws.get n h)
  unfolding set_request_headers set_request_header
  get-set_request_headers n [] h = refl
  get-set_request_headers n (o ∷ options) h =
      get-set_request_headers n options (set_request_header headers o.key o.value h)
      ∙ ap (last_value n options) (laws.get-add_copy n (headers.lower_case_string o.key) o.value h)

  get-set_length :
      (n : Chars) (length : ℕ) (h : H)
      → laws.get n (set_length headers length h) ≡ (
          if ltb 0 length && eq_chars (stored_name n) (codes "content-length")
          then some (headers.length_text length)
          else laws.get n h)
  unfolding set_length
  get-set_length n length h = elim (Bool-cases (ltb 0 length)) [
    | inl body ↦ rw body (laws.get-set n (codes "content-length") (headers.length_text length) h)
    | inr empty ↦ rw empty refl
  ]

  module _ {M : Type 0} (library : UriLibrary) (messages : Messages M) where
    -- The value of a header, without those that are configured.
    abbrev pub base_value : Options M → Chars × Chars × Chars → Chars → Option Chars
    base_value o (path, host, scheme) n =
        if ltb 0 o.request_body_size && eq_chars (stored_name n) (codes "content-length")
        then some (headers.length_text o.request_body_size)
        else if eq_chars (stored_name n) (codes ":method")
        then some (headers.method_name o.request_method)
        else if eq_chars (stored_name n) (codes ":scheme")
        then some scheme
        else if eq_chars (stored_name n) (codes ":authority")
        then some host
        else if eq_chars (stored_name n) (codes ":path")
        then some path
        else none

    get-base_header :
        (o : Options M) (path host scheme n : Chars)
        → laws.get n (base_header headers library messages o (path, host, scheme))
          ≡ base_value o (path, host, scheme) n
    unfolding base_header
    get-base_header o path host scheme n =
        get-set_length n o.request_body_size _
        ∙ ap
            (λ rest.
              if ltb 0 o.request_body_size && eq_chars (stored_name n) (codes "content-length")
              then some (headers.length_text o.request_body_size)
              else rest)
            (laws.get-set n (codes ":method") _ _
              ∙ ap
                  (λ rest.
                    if eq_chars (stored_name n) (codes ":method")
                    then some (headers.method_name o.request_method)
                    else rest)
                  (laws.get-set n (codes ":scheme") _ _
                    ∙ ap
                        (λ rest.
                          if eq_chars (stored_name n) (codes ":scheme") then some scheme else rest)
                        (laws.get-set n (codes ":authority") _ _
                          ∙ ap
                              (λ rest.
                                if eq_chars (stored_name n) (codes ":authority")
                                then some host
                                else rest)
                              (laws.get-set n (codes ":path") _ _
                                ∙ ap
                                    (λ rest.
                                      if eq_chars (stored_name n) (codes ":path")
                                      then some path
                                      else rest)
                                    (laws.get-create n)))))

    -- Each name in a header that is created has the last value configured for it, under its lower-case
    -- form; the names host and :authority are one and the same here. Without one it has the value of the options: the content length, if the body is not empty,
    -- the method, and the scheme, host and path of the URI or of the multi-target; any other name has
    -- no value.
    pub create_header_lem :
        (o : Options M) (h : H) (n : Chars)
        → create_header headers library messages o ≡ ok h
        → (target : Chars × Chars × Chars) × (m : CommandLineOptions M) × (target_of library o o.uri
            ≡ ok target)
          × (to_command_line_options messages o ≡ ok m)
          × (laws.get n h
              ≡ last_value n (headers_of m.oneof_request_options) (base_value o target n))
    unfolding create_header
    create_header_lem o h n created =
        let (target, found, h1) = bind-ok (target_of library o o.uri) _ h created in
        let (m, sent, h2) = bind-ok (to_command_line_options messages o) _ h h1 in
        let (path, host, scheme) = target in
        (
          target,
          m,
          found,
          sent,
          ap (laws.get n) (sym (ok-injective _ h h2))
              ∙ get-set_request_headers n (headers_of m.oneof_request_options) _
              ∙ ap (last_value n (headers_of m.oneof_request_options))
                  (get-base_header o path host scheme n),
        )
