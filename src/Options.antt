-- ===== src/Options.antt =====
-- The configuration of pageant/pageant.go: a bridge and the options it is made with. A handler is
-- known by its name only, since nothing here calls it.
use winssh_pageant.Common.{
  ℕ, ◌≡◌, refl, Bool, true, false, Option, none, some, List, [], ◌∷◌, ◌++◌, Bytes, codes,
}

-- `defaultHandlerFunc`, or a handler of the embedding program.
pub data HandlerName : Type 0 where
  default_handler : HandlerName
  custom_handler : ℕ → HandlerName

-- The configured fields of `Pageant`.
pub record Pageant : Type 0 where
  pub show_keys_on_start : Bool
  pub ssh_agent_pipe : Bytes
  pub pageant_pipe : Bool
  pub request_handler : HandlerName

-- `DefaultSSHAgentPipe`
abbrev pub default_ssh_agent_pipe : Bytes
default_ssh_agent_pipe = codes "\\\\.\\pipe\\openssh-ssh-agent"

-- `New`
unfoldable pub new : Bytes → Bool → HandlerName → Pageant
new pipe enabled handler = record {
  show_keys_on_start = false;
  ssh_agent_pipe = pipe;
  pageant_pipe = enabled;
  request_handler = handler;
}

-- `NewDefaultHandler`
unfoldable pub new_default_handler : Bytes → Bool → Pageant
new_default_handler pipe enabled = new pipe enabled default_handler

-- An option may fail, and may have changed the bridge all the same.
abbrev pub Setting : Type 0 → Type 0
Setting E = Pageant → Option E × Pageant

-- The loop of `NewWithOptions`: the bridge, and the errors that it logs.
unfoldable pub apply_all : {E : Type 0} → List (Setting E) → Pageant → List E × Pageant
apply_all [] p = ([], p)
apply_all (apply_to ∷ opts) p =
    let (e, p') = apply_to p in
    let (errors, q) = apply_all opts p' in (elim e [ none ↦ errors | some x ↦ x ∷ errors ], q)

unfoldable pub new_with_options : {E : Type 0} → List (Setting E) → List E × Pageant
new_with_options opts = apply_all opts (new default_ssh_agent_pipe true default_handler)

-- `WithSSHPipe`, `WithPageantPipe` and `WithPageantRequestHandler`
unfoldable pub with_ssh_pipe : {E : Type 0} → Bytes → Setting E
with_ssh_pipe pipe p = (none, record p { ssh_agent_pipe = pipe })

unfoldable pub with_pageant_pipe : {E : Type 0} → Bool → Setting E
with_pageant_pipe enabled p = (none, record p { pageant_pipe = enabled })

unfoldable pub with_pageant_request_handler : {E : Type 0} → HandlerName → Setting E
with_pageant_request_handler handler p = (none, record p { request_handler = handler })

apply_all-snoc :
    {E : Type 0} (opts : List (Setting E)) (last : Setting E) (p : Pageant)
    → (apply_all (opts ++ (last ∷ [])) p).1 ≡ (last (apply_all opts p).1).1
unfolding apply_all
apply_all-snoc [] last p = refl
apply_all-snoc (o ∷ opts) last p = apply_all-snoc opts last (o p).1

-- An option given last has the last word on the bridge, whatever the options before it did and
-- whether they failed.
pub new_with_options_last :
    {E : Type 0} (opts : List (Setting E)) (last : Setting E)
    → (new_with_options (opts ++ (last ∷ []))).1 ≡ (last (new_with_options opts).1).1
unfolding new_with_options
new_with_options_last opts last =
    apply_all-snoc opts last (new default_ssh_agent_pipe true default_handler)

-- A pipe name given last replaces the one before it, and nothing else.
pub with_ssh_pipe_last :
    {E : Type 0} (opts : List (Setting E)) (pipe : Bytes)
    → (new_with_options (opts ++ (with_ssh_pipe pipe ∷ []))).1
      ≡ record (new_with_options opts).1 { ssh_agent_pipe = pipe }
unfolding with_ssh_pipe
with_ssh_pipe_last opts pipe = new_with_options_last opts (with_ssh_pipe pipe)
