-- ===== src/Catalog/Compiler/Invariant.antt =====
-- What every step of catalog/compiler.go keeps of the catalog that it builds.
use mmmcp.Base.{
  sym, ◌≡◌, refl, inl, inr, Bool, true, false, if◌then◌else◌, Option, none, some, Option-cases,
  Bool-cases, List, [], ◌∷◌, ◌++◌, Text, text_keys, contains_text, lookup, insert, map, arith, All,
  All-append, subst, Result, ok, err, ◌>>=◌, IfOk, wrap, Result-cases,
}
use mmmcp.Catalog.{
  Tool, Prompt, Resource, ResourceTemplate, ToolRoute, PromptRoute, Catalog, tool_names,
  prompt_names, resource_uris, template_uris,
}
use mmmcp.Catalog.Compiler.{
  Kind, Error, Owned, compile_loop, put_tool, put_prompt, put_resource, put_template,
}
use mmmcp.Catalog.Compiler.Keys.{Keyed, Keyed-insert, map-append, insert-absent}
use mmmcp.Namespace
use mmmcp.Namespace.{named_feature}
use mmmcp.Config.{Server}

-- A route's key is the exposed name of some local name under the route's prefix.
abbrev pub NamedTool : Text × ToolRoute → Type 0
NamedTool e = (local : Text) × (named_feature Namespace.tool e.1.prefix local ≡ ok e.0)

abbrev pub NamedPrompt : Text × PromptRoute → Type 0
NamedPrompt e = (local : Text) × (named_feature Namespace.prompt e.1.prefix local ≡ ok e.0)

pub record IsRouted (owners : List (Text × Text)) (c : Catalog) : Type 0 where
  pub tools : Keyed (tool_names c.tools) c.tool_routes
  pub tools_named : All NamedTool c.tool_routes
  pub visible : c.tool_search ≡ false → c.visible_tools ≡ c.tools
  pub prompts : Keyed (prompt_names c.prompts) c.prompt_routes
  pub prompts_named : All NamedPrompt c.prompt_routes
  pub resources : Keyed (resource_uris c.resources) c.resource_routes
  pub templates : Keyed (template_uris c.resource_templates) owners
  pub unindexed : c.search_index ≡ none

abbrev pub IsOwned : Owned → Type 0
IsOwned (c, owners) = IsRouted owners c

-- What a body keeps, the loop keeps.
pub compile_loop-keeps :
    {A S : Type 0} (P : S → Type 0) (component : Text) (kind : Kind) (identity : A → Text)
    (body : A → S → Result Error S)
    → ((a : A) (c : S) → P c → IfOk P (body a c))
    → (seen : List Text) (features : List (Option A)) (c : S) → P c
    → IfOk P (compile_loop component kind identity body seen features c)
unfolding compile_loop
compile_loop-keeps P component kind identity body keep seen [] c h = h
compile_loop-keeps P component kind identity body keep seen (none ∷ rest) c h = tt
compile_loop-keeps P component kind identity body keep seen (some a ∷ rest) c h =
    elim (Bool-cases (contains_text (identity a) seen)) [
      | inl q ↦ rw (q) tt
      | inr q ↦ elim (Result-cases (body a c)) [
        | inl (d, e) ↦
            let kept : P d = subst (IfOk P) e (keep a c h) in
            rw (q, e)
              (compile_loop-keeps P component kind identity body keep (identity a ∷ seen) rest d
                kept)
        | inr (d, e) ↦ rw (q, e) tt
      ]
    ]

pub IfOk-bind :
    {A B : Type 0} (P : B → Type 0) (m : Result Error A) (f : A → Result Error B)
    → ((a : A) → m ≡ ok a → IfOk P (f a))
    → IfOk P (m >>= f)
IfOk-bind P (ok a) f h = h a refl
IfOk-bind P (err e) f h = tt

pub IfOk-if :
    {A : Type 0} (P : A → Type 0) (b : Bool) (m n : Result Error A)
    → IfOk P m
    → IfOk P n
    → IfOk P (if b then m else n)
IfOk-if P true m n h k = h
IfOk-if P false m n h k = k

pub wrap-eq-ok : {A E F : Type 0} (f : E → F) (m : Result E A) (a : A) → wrap f m ≡ ok a → m ≡ ok a
wrap-eq-ok f (ok b) a h = cc
wrap-eq-ok f (err e) a h = cc

pub All-insert :
    {V : Type 0} (P : Text × V → Type 0) (k : Text) (v : V) (m : List (Text × V))
    → lookup k m ≡ none
    → P (k, v)
    → All P m
    → All P (insert k v m)
All-insert P k v m q p h =
    subst (All P) (sym (insert-absent k v m q)) (All-append P m ((k, v) ∷ []) h (p, tt))

Keyed-snoc :
    {A V : Type 0} (f : A → Text) (xs : List A) (a : A) (v : V) (m : List (Text × V))
    → Keyed (map f xs) m
    → lookup (f a) m ≡ none
    → Keyed (map f (xs ++ a ∷ [])) (insert (f a) v m)
Keyed-snoc f xs a v m h q =
    subst (λ names. Keyed names (insert (f a) v m)) (sym (map-append f a xs))
      (Keyed-insert (map f xs) (f a) v m h q)

pub put_tool-IsRouted :
    (owners : List (Text × Text)) (server : Server) (prefix protocol name description local : Text)
    (t : Tool) (c : Catalog)
    → named_feature Namespace.tool prefix local ≡ ok name
    → IsRouted owners c
    → IfOk (IsRouted owners) (put_tool server prefix protocol name description t c)
unfolding put_tool
put_tool-IsRouted owners server prefix protocol name description local t c n v =
    elim (Option-cases (lookup name c.tool_routes)) [
      | inr (r, q) ↦ rw (q, put_tool) tt
      | inl q ↦
          rw (q, put_tool)
            (record {
              tools = Keyed-snoc _ c.tools _ _ c.tool_routes v.tools q;
              tools_named = All-insert NamedTool name _ c.tool_routes q (local, n) v.tools_named;
              visible = λ s. ground (arith, v.visible s);
              templates = v.templates;
              prompts = v.prompts;
              prompts_named = v.prompts_named;
              resources = v.resources;
              unindexed = v.unindexed;
            })
    ]

pub put_prompt-IsRouted :
    (owners : List (Text × Text)) (server : Server) (prefix name description local : Text)
    (p : Prompt) (c : Catalog)
    → named_feature Namespace.prompt prefix local ≡ ok name
    → IsRouted owners c
    → IfOk (IsRouted owners) (put_prompt server prefix name description p c)
unfolding put_prompt
put_prompt-IsRouted owners server prefix name description local p c n v =
    elim (Option-cases (lookup name c.prompt_routes)) [
      | inr (r, q) ↦ rw (q, put_prompt) tt
      | inl q ↦
          rw (q, put_prompt)
            (record {
              tools = v.tools;
              tools_named = v.tools_named;
              visible = v.visible;
              templates = v.templates;
              prompts = Keyed-snoc _ c.prompts _ _ c.prompt_routes v.prompts q;
              prompts_named =
                  All-insert NamedPrompt name _ c.prompt_routes q (local, n) v.prompts_named;
              resources = v.resources;
              unindexed = v.unindexed;
            })
    ]

pub put_resource-IsRouted :
    (owners : List (Text × Text)) (server : Server) (prefix uri name description : Text)
    (r : Resource) (c : Catalog)
    → IsRouted owners c
    → IfOk (IsRouted owners) (put_resource server prefix uri name description r c)
unfolding put_resource
put_resource-IsRouted owners server prefix uri name description r c v =
    elim (Option-cases (lookup uri c.resource_routes)) [
      | inr (e, q) ↦ rw (q, put_resource) tt
      | inl q ↦
          rw (q, put_resource)
            (record {
              tools = v.tools;
              tools_named = v.tools_named;
              visible = v.visible;
              templates = v.templates;
              prompts = v.prompts;
              prompts_named = v.prompts_named;
              unindexed = v.unindexed;
              resources = Keyed-snoc _ c.resources _ _ c.resource_routes v.resources q;
            })
    ]

pub put_template-IsOwned :
    (parses : Text → Bool) (server : Server) (prefix uri name description : Text)
    (t : ResourceTemplate) (c : Owned)
    → IsOwned c
    → IfOk IsOwned (put_template parses server prefix uri name description t c)
unfolding put_template
put_template-IsOwned parses server prefix uri name description t (c, owners) v =
    elim (Option-cases (lookup uri owners)) [
      | inr (e, q) ↦ rw (q, put_template) tt
      | inl q ↦
          rw (q, put_template)
            (record {
              tools = v.tools;
              tools_named = v.tools_named;
              visible = v.visible;
              prompts = v.prompts;
              prompts_named = v.prompts_named;
              resources = v.resources;
              unindexed = v.unindexed;
              templates = Keyed-snoc _ c.resource_templates _ _ owners v.templates q;
            })
    ]
