-- ===== src/Protocol/Layers.antt =====
-- PromptRequest.validate_layers of src/acp_proxy/direct_protocol.py and _render_blocks of
-- src/acp_proxy/direct_service.py: the layers of a prompt and the text that is dispatched.
use acp_test.Base.{String, ◌≡◌, refl, Option, none, some, List, [], ◌∷◌, arith}
use Prim.Native.String.{◌++◌ as ◌+++◌}
use acp_test.State.{ok}
use acp_test.Protocol.{
  PromptRequest, PromptPhase, initial, invocation, correction, continuation, validate_layers,
  render_blocks,
}

-- The layers that a request carries, in the order in which the model is to read them.
abbrev present : Option String → List String → List String
present none l = l
present (some s) l = s ∷ l

pub layers : PromptRequest → List String
layers r =
    present r.stable_instructions
      (present r.prompt (present r.output_contract (present r.delta [])))

-- Texts joined by an empty line.
pub join_layers : List String → String
join_layers [] = ""
join_layers (s ∷ []) = s
join_layers (s ∷ t ∷ ts) = s +++ "\n\n" +++ join_layers (t ∷ ts)

-- The same with the phase and the layers spelled out, so that a case is one choice of each.
render_blocks-join_at :
    (r : PromptRequest) (p : PromptPhase) (a b c d : Option String)
    → let q = record r {
      phase = p;
      stable_instructions = a;
      prompt = b;
      output_contract = c;
      delta = d;
    } in
      validate_layers q ≡ none → render_blocks q ≡ ok (join_layers (layers q))
unfolding validate_layers render_blocks layers join_layers
render_blocks-join_at r initial (some a) (some b) (some c) none h = refl
render_blocks-join_at r invocation none (some b) (some c) none h = refl
render_blocks-join_at r correction none none none (some d) h = refl
render_blocks-join_at r continuation none none none (some d) h = refl
render_blocks-join_at r _ _ _ _ _ h = ground arith

-- A validated request renders, in every phase, and the text is exactly the layers that the request
-- carries, each once and in order, with an empty line between two.
pub render_blocks-join :
    (r : PromptRequest) → validate_layers r ≡ none → render_blocks r ≡ ok (join_layers (layers r))
render_blocks-join r h =
    render_blocks-join_at r r.phase r.stable_instructions r.prompt r.output_contract r.delta h
