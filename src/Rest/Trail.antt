-- ===== src/Rest/Trail.antt =====
-- The way of a request through the handlers, apart from the authorisation, and the authorisations
-- on that way.
use muondetector_cluster.Prelude.{
  ◌≡◌, refl, ◌||◌, Bool, true, false, List, [], ◌∷◌, Option, none, some, Text, if◌then◌else◌,
}
use muondetector_cluster.Prelude.Texts.{codes}
use muondetector_cluster.Message.{is_empty}
use muondetector_cluster.Source.Run.{Run, done, invalid, overflow, fault, ◌>>=◌}
use muondetector_cluster.Rest.{
  Request, Response, Platform, Handler, handler, Handlers, end, next, none_installed, http_response,
  bad_request, authorise, dispatch_handler, visit, skip_empty, handle_path,
}

-- What a test decides, where it does not throw.
abbrev pub choose :
    Run Bool
    → List Handler × Run Response
    → List Handler × Run Response
    → List Handler × Run Response
choose (done found) inside others = if found then inside else others
choose invalid inside others = ([], invalid)
choose overflow inside others = ([], overflow)
choose fault inside others = ([], fault)

module _ (p : Platform) where
  -- The handlers that a path leads through, and what stands at its end.
  unfoldable mutual
    pub trail : Handlers → Request → List Text → List Handler × Run Response
    trail hs req [] = ([], done (http_response p bad_request req (codes "Request-target empty")))
    trail end req (front ∷ path) =
        ([], done (http_response p bad_request req (codes "Illegal request-target")))
    trail (next (handler m a f c r) hs) req (front ∷ path) =
        let inside = descend (handler m a f c r) req path in
        let others = trail hs req (front ∷ path) in choose (m front) inside others

    pub descend : Handler → Request → List Text → List Handler × Run Response
    descend (handler m a f c r) req path =
        let (others, last) = trail c req (skip_empty path) in
        if none_installed c || is_empty path
        then (handler m a f c r ∷ [], f req path)
        else (handler m a f c r ∷ others, last)

  -- The first answer, from the outside to the inside, that refuses the request.
  unfoldable pub admit : List Handler → Request → Run (Option Response)
  admit [] req = done none
  admit (handler m a f c r ∷ hs) req = authorise p a r req >>= λ answer. elim answer [
    | some refusal ↦ done (some refusal)
    | none ↦ admit hs req
  ]

  -- The last answer, unless it was refused before.
  abbrev pub behind : Run Response → Option Response → Run Response
  behind last (some refusal) = done refusal
  behind last none = last

  abbrev pub follow : List Handler × Run Response → Request → Run Response
  follow (hs, last) req = admit hs req >>= behind last

  choose-follow :
      (found : Run Bool) (v d : Run Response) (inside others : List Handler × Run Response)
      (req : Request)
      → v ≡ follow inside req
      → d ≡ follow others req
      → (found >>= λ b. if b then v else d) ≡ follow (choose found inside others) req
  unfolding admit
  choose-follow (done true) v d inside others req h k = h
  choose-follow (done false) v d inside others req h k = k
  choose-follow invalid v d inside others req h k = refl
  choose-follow overflow v d inside others req h k = refl
  choose-follow fault v d inside others req h k = refl

  -- `authorise` before the rest is `authorise` before the rest's own authorisations.
  refuse-behind :
      (answer : Run (Option Response)) (rest : Run (Option Response)) (last : Run Response)
      → (answer >>= behind (rest >>= behind last)) ≡ (
          (answer >>= λ a. elim a [ some refusal ↦ done (some refusal) | none ↦ rest ])
          >>= behind last)
  refuse-behind (done (some refusal)) rest last = refl
  refuse-behind (done none) rest last = refl
  refuse-behind invalid rest last = refl
  refuse-behind overflow rest last = refl
  refuse-behind fault rest last = refl

  step-follow :
      (at_end : Bool) (m : Text → Run Bool) (a : Request → Text → Text → Run Bool)
      (f : Request → List Text → Run Response) (c : Handlers) (r : Bool) (req : Request)
      (leaf inner : Run Response) (way : List Handler × Run Response)
      → inner ≡ follow way req
      → (authorise p a r req >>= behind (if at_end then leaf else inner))
        ≡ follow
            (if at_end then (handler m a f c r ∷ [], leaf) else (handler m a f c r ∷ way.0, way.1))
            req
  unfolding admit
  step-follow true m a f c r req leaf inner way h =
      refuse-behind (authorise p a r req) (done none) leaf
  step-follow false m a f c r req leaf inner way h =
      rw h (refuse-behind (authorise p a r req) (admit way.0 req) way.1)

  mutual
    unfolding dispatch_handler trail admit

    dispatch_handler-follow :
        (hs : Handlers) (req : Request) (path : List Text)
        → dispatch_handler p hs req path ≡ follow (trail hs req path) req
    dispatch_handler-follow hs req [] = refl
    dispatch_handler-follow end req (front ∷ path) = refl
    dispatch_handler-follow (next (handler m a f c r) hs) req (front ∷ path) =
        choose-follow (m front) _ _ _ _ req (visit-follow (handler m a f c r) req path)
          (dispatch_handler-follow hs req (front ∷ path))

    visit-follow :
        (h : Handler) (req : Request) (path : List Text)
        → visit p h req path ≡ follow (descend h req path) req
    visit-follow (handler m a f c r) req path =
        step-follow (none_installed c || is_empty path) m a f c r req (f req path) _ _
          (dispatch_handler-follow c req (skip_empty path))

  -- `handle_path` leads through the handlers of the way, from the outermost to the innermost: the
  -- first of them that refuses the request, or throws, gives the answer, and if none does, the
  -- answer is what stands at the end of the way, which is found without any authorisation.
  pub handle_path-follow :
      (handlers : Handlers) (req : Request) (path : List Text)
      → handle_path p req path handlers ≡ follow (trail handlers req (skip_empty path)) req
  unfolding handle_path
  handle_path-follow handlers req path = dispatch_handler-follow handlers req (skip_empty path)
