-- ===== src/Client/Reading.antt =====
-- client/client.go: what is read of an encoded entry is the entry.
use mcp_go_sdk.Prelude.{
  ◌≡◌, refl, ap, ◌∙◌, Bool, true, false, none, some, List, [], ◌∷◌, String, map, arith, ◌==◌,
  string_Key, if◌then◌else◌, if_elim,
}
use mcp_go_sdk.Value.{nil, str, obj, Fields, end, field, get, as_string}
use mcp_go_sdk.Shared.Types.{Content, text, image, audio, Resource, Tool, Prompt, PromptArgument}
use mcp_go_sdk.Client.{
  get_string, get_bool, get_items, get_map, read_maps, read_resource_entry, read_tool_entry,
  as_bool, as_items, as_map, read_prompt_entry, read_argument_entry, read_text_content,
}
use mcp_go_sdk.Client.Encoding.{
  Rereads, encode_list, encode_resource, encode_tool, encode_prompt, encode_argument,
  encode_content, encode_arguments, optional, optional_bool,
}

pub map_same : {A : Type 0} (xs : List A) → map (λ a. a) xs ≡ xs
map_same [] = refl
map_same (x ∷ xs) = ap (λ rest. x ∷ rest) (map_same xs)

module _ {F : Type 0} where
  -- What is read of an encoded list, if each entry is read as `reads` of it
  pub read_maps-encode_list :
      {A B : Type 0} (read : Fields F → B) (encode : A → Fields F) (reads : A → B)
      → ((a : A) → read (encode a) ≡ reads a)
      → (xs : List A) → read_maps read (encode_list encode xs) ≡ map reads xs
  unfolding read_maps encode_list
  read_maps-encode_list read encode reads each [] = refl
  read_maps-encode_list read encode reads each (x ∷ xs) =
      ground (arith, each x, read_maps-encode_list read encode reads each xs)

  pub get-optional :
      (key other s : String) (m : Fields F)
      → (other == key) ≡ false
      → get key (optional other s m) ≡ get key m
  unfolding get
  get-optional key other s m differs =
      if_elim (λ entries. get key entries ≡ get key m) (s == "") m (field other (str s) m)
        (λ e. refl) (λ e. ap (λ b. if b then some (str s) else get key m) differs)

  pub get_string-optional :
      (key s : String) (m : Fields F)
      → get_string key m ≡ ""
      → get_string key (optional key s m) ≡ s
  unfolding get_string get
  get_string-optional key s m missing =
      if_elim (λ entries. get_string key entries ≡ s) (s == "") m (field key (str s) m)
        (λ e. ground (arith, string_Key.same_iff s ""))
        (λ e. ground (arith, string_Key.same_iff key key))

  pub get_string-other :
      (key other s : String) (m : Fields F)
      → (other == key) ≡ false
      → get_string key (optional other s m) ≡ get_string key m
  unfolding get_string
  get_string-other key other s m differs =
      ap (λ o. elim o [ none ↦ "" | some v ↦ elim (as_string v) [ none ↦ "" | some t ↦ t ] ])
        (get-optional key other s m differs)

-- What the client keeps of a block of content: the text of a text, and nothing of the others
abbrev pub kept : Content → Content
kept (text t uri) = text t uri
kept (image bytes mime) = text "" ""
kept (audio bytes mime) = text "" ""

module _ (F : Type 0) where
  pub resource_read : (r : Resource) → read_resource_entry {F = F} (encode_resource r) ≡ r
  unfolding read_resource_entry get_string get
  resource_read r =
      let rest : Fields F = optional "mimeType" r.mime_type end in
      let here =
        get_string-optional "description" r.description rest
          (get_string-other "description" "mimeType" r.mime_type end refl) in
      let there =
        get_string-other "mimeType" "description" r.description rest refl
        ∙ get_string-optional "mimeType" r.mime_type end refl in
      rw (here, there) refl

  required_read :
      (required : Bool)
      → get_bool {F = F} "required" (optional_bool "required" required end) ≡ required
  unfolding get_bool get
  required_read true = refl
  required_read false = refl

  pub argument_read : (a : PromptArgument) → read_argument_entry {F = F} (encode_argument a) ≡ a
  unfolding read_argument_entry get_string get_bool get
  argument_read a =
      let rest : Fields F = optional_bool "required" a.required end in
      let here = get_string-optional "description" a.description rest (no_description a.required) in
      let there =
        ap (λ o. elim o [ none ↦ false | some v ↦ as_bool v ])
          (get-optional "required" "description" a.description rest refl)
        ∙ required_read a.required in
      rw (here, there) refl
    where
      no_description :
          (required : Bool)
          → get_string {F = F} "description" (optional_bool "required" required end) ≡ ""
      no_description true = refl
      no_description false = refl

  pub arguments_read :
      (arguments : List PromptArgument)
      → read_maps {F = F} read_argument_entry (get_items "arguments" (encode_arguments arguments))
        ≡ arguments
  unfolding get_items get read_maps
  arguments_read [] = refl
  arguments_read (a ∷ rest) =
      read_maps-encode_list read_argument_entry encode_argument (λ b. b) argument_read (a ∷ rest)
      ∙ map_same (a ∷ rest)

  pub prompt_read : (p : Prompt) → read_prompt_entry {F = F} (encode_prompt p) ≡ p
  unfolding read_prompt_entry get_string get_items get
  prompt_read p =
      let rest : Fields F = encode_arguments p.arguments in
      let here =
        get_string-optional "description" p.description rest (no_description p.arguments) in
      let there =
        ap (λ o. read_maps read_argument_entry (elim o [ none ↦ nil | some v ↦ as_items v ]))
          (get-optional "arguments" "description" p.description rest refl)
        ∙ arguments_read p.arguments in
      rw (here, there) refl
    where
      no_description :
          (arguments : List PromptArgument)
          → get_string {F = F} "description" (encode_arguments arguments) ≡ ""
      no_description [] = refl
      no_description (a ∷ more) = refl

  pub content_read : (c : Content) → read_text_content {F = F} (encode_content c) ≡ kept c
  unfolding read_text_content get_string get
  content_read (text t uri) =
      rw (get_string-optional "uri" uri end refl) (ap (λ u. text u uri) refl)
  content_read (image bytes mime) = refl
  content_read (audio bytes mime) = refl

  module _ (json : Rereads F) where
    abbrev pub reread_tool : Tool F → Tool F
    reread_tool t = record t { input_schema = json.reread t.input_schema }

    pub tool_read : (t : Tool F) → read_tool_entry (encode_tool json t) ≡ reread_tool t
    unfolding read_tool_entry get_string get_map get
    tool_read t =
        let rest : Fields F = field "inputSchema" (obj (json.reread t.input_schema)) end in
        let here = get_string-optional "description" t.description rest refl in
        let there =
          ap (λ o. elim o [ none ↦ end | some v ↦ as_map v ])
            (get-optional "inputSchema" "description" t.description rest refl) in
        rw (here, there) refl
