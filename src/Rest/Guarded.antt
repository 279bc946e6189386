-- ===== src/Rest/Guarded.antt =====
-- Who gets past the handlers that ask for authorisation.
use muondetector_cluster.Prelude.{
  ◌<◌, length, ◌≡◌, ◌≢◌, refl, ◌⊎◌, inl, inr, Bool, true, false, List, [], ◌∷◌, Option, none, some,
  All, Text, if◌then◌else◌, arith, if-cases,
}
use muondetector_cluster.Message.{is_empty}
use muondetector_cluster.Source.Run.{Run, done, invalid, overflow, fault, ◌>>=◌}
use muondetector_cluster.Rest.{
  Request, Response, Platform, Handler, handler, Handlers, http_response, unauthorized, substr,
  npos, credentials, authorise, skip_empty, handle_path,
}
use muondetector_cluster.Rest.Trail.{trail, admit, behind, handle_path-follow}

-- A request that an `authenticate` accepted, with the name and the password that were decoded.
abbrev pub IsAuthentic : Platform → (Request → Text → Text → Run Bool) → Request → Type 0
IsAuthentic p a req =
    (req.authorization ≢ [])
    × (code : Text) × (auth : Text) × (username : Text) × (password : Text) × (substr 6 npos
          req.authorization
        ≡ done code)
    × (p.decode code ≡ done auth)
    × (credentials auth ≡ done (username, password))
    × (a req username password ≡ done true)

abbrev pub IsAccepted : Platform → Request → Handler → Type 0
IsAccepted p req (handler m a f c r) = r ≡ true → IsAuthentic p a req

-- An exception, or the status 401.
abbrev pub IsRefused : Run Response → Type 0
IsRefused (done answer) = answer.status ≡ unauthorized
IsRefused invalid = Unit
IsRefused overflow = Unit
IsRefused fault = Unit

abbrev IsRefusal : Run (Option Response) → Type 0
IsRefusal (done (some answer)) = answer.status ≡ unauthorized
IsRefusal (done none) = ⊥
IsRefusal invalid = Unit
IsRefusal overflow = Unit
IsRefusal fault = Unit

module _ (p : Platform) where
  empty-nil : (s : Text) → is_empty s ≡ true → s ≡ []
  empty-nil [] e = refl
  empty-nil (c ∷ s) e = absurd (ground (arith, e))

  -- What `authorise` may return.
  abbrev Verdict : (Request → Text → Text → Run Bool) → Request → Run (Option Response) → Type 0
  Verdict a req answer = ((answer ≡ done none) × IsAuthentic p a req) ⊎ IsRefusal answer

  bind-Verdict :
      {A : Type 0} (a : Request → Text → Text → Run Bool) (req : Request) (x : Run A)
      (f : A → Run (Option Response))
      → ((v : A) → x ≡ done v → Verdict a req (f v))
      → Verdict a req (x >>= f)
  bind-Verdict a req (done v) f h = h v refl
  bind-Verdict a req invalid f h = inr tt
  bind-Verdict a req overflow f h = inr tt
  bind-Verdict a req fault f h = inr tt

  nonempty : {s : Text} → is_empty s ≡ false → s ≢ []
  nonempty {s = []} e = absurd (ground (arith, e))
  nonempty {s = c ∷ s} e = ground arith

  verdict_of :
      (a : Request → Text → Text → Run Bool) (req : Request) (accepted : Bool) (why : Text)
      {code auth username password : Text}
      → a req username password ≡ done accepted
      → req.authorization ≢ []
      → substr 6 npos req.authorization ≡ done code
      → p.decode code ≡ done auth
      → credentials auth ≡ done (username, password)
      → Verdict a req
          (done (if accepted then none else some (http_response p unauthorized req why)))
  unfolding http_response
  verdict_of a req true why j n c d f = inl (refl, (n, _, _, _, _, c, d, f, j))
  verdict_of a req false why j n c d f = inr refl

  authorise-Verdict :
      (a : Request → Text → Text → Run Bool) (req : Request)
      → Verdict a req (authorise p a true req)
  unfolding authorise http_response
  authorise-Verdict a req =
      if-cases (Verdict a req) (is_empty req.authorization) _ _ (λ none_given. inr refl)
        (λ given. bind-Verdict a req (substr 6 npos req.authorization) _ (λ code cut.
          bind-Verdict a req (p.decode code) _ (λ auth decoded.
            bind-Verdict a req (credentials auth) _ (λ (username, password) found.
              bind-Verdict a req (a req username password) _ (λ accepted judged.
                verdict_of a req accepted _ judged (nonempty given) cut decoded found)))))

  admit-step :
      (a : Request → Text → Text → Run Bool) (req : Request) (answer rest : Run (Option Response))
      (last : Run Response) (others : List Handler)
      → Verdict a req answer
      → All (IsAccepted p req) others × (rest >>= behind p last ≡ last)
        ⊎ IsRefused (rest >>= behind p last)
      → let result =
          (answer >>= λ given. elim given [ some refusal ↦ done (some refusal) | none ↦ rest ])
          >>= behind p last in
        (IsAuthentic p a req × All (IsAccepted p req) others) × (result ≡ last) ⊎ IsRefused result
  admit-step a req (done (some refusal)) rest last others (inl (e, h)) k =
      absurd (ground (arith, e))
  admit-step a req (done (some refusal)) rest last others (inr h) k = inr h
  admit-step a req (done none) rest last others (inl (e, h)) (inl (hs, q)) = inl ((h, hs), q)
  admit-step a req (done none) rest last others (inl (e, h)) (inr q) = inr q
  admit-step a req (done none) rest last others (inr h) k = absurd h
  admit-step a req invalid rest last others h k = inr tt
  admit-step a req overflow rest last others h k = inr tt
  admit-step a req fault rest last others h k = inr tt

  -- A handler that asks for nothing changes nothing.
  admit-free :
      (m : Text → Run Bool) (a : Request → Text → Text → Run Bool)
      (f : Request → List Text → Run Response) (c : Handlers) (hs : List Handler) (req : Request)
      → admit p (handler m a f c false ∷ hs) req ≡ admit p hs req
  unfolding admit authorise
  admit-free m a f c hs req = refl

  admit-Accepted :
      (hs : List Handler) (req : Request) (last : Run Response)
      → All (IsAccepted p req) hs × (admit p hs req >>= behind p last ≡ last)
        ⊎ IsRefused (admit p hs req >>= behind p last)
  unfolding admit
  admit-Accepted [] req last = inl (tt, refl)
  admit-Accepted (handler m a f c false ∷ hs) req last =
      rw (admit-free m a f c hs req) (elim (admit-Accepted hs req last) [
        | inl (accepted, e) ↦ inl ((λ asks. absurd (ground (arith, asks)), accepted), e)
        | inr refused ↦ inr refused
      ])
  admit-Accepted (handler m a f c true ∷ hs) req last =
      elim (admit-step a req (authorise p a true req) (admit p hs req) last hs
        (authorise-Verdict a req) (admit-Accepted hs req last)) [
          | inl ((authentic, accepted), e) ↦ inl ((λ asks. authentic, accepted), e)
          | inr refused ↦ inr refused
        ]

  -- Either every handler on the way of a request that asks for authorisation has accepted it, and
  -- the answer is what stands at the end of the way; or the answer has the status 401, or is an
  -- exception.
  pub handle_path-Guarded :
      (handlers : Handlers) (req : Request) (path : List Text)
      → let (way, last) = trail p handlers req (skip_empty path) in
        All (IsAccepted p req) way × (handle_path p req path handlers ≡ last)
        ⊎ IsRefused (handle_path p req path handlers)
  handle_path-Guarded handlers req path =
      let (way, last) = trail p handlers req (skip_empty path) in
      rw (handle_path-follow p handlers req path) (admit-Accepted way req last)

  short-substr : (s : Text) → length s < 6 → substr 6 npos s ≡ overflow
  unfolding substr
  short-substr s h = ground (arith, h)

  short-authorise :
      (a : Request → Text → Text → Run Bool) (req : Request)
      → req.authorization ≢ []
      → length req.authorization < 6
      → authorise p a true req ≡ overflow
  unfolding authorise
  short-authorise a req n h =
      if-cases (λ r. r ≡ overflow) (is_empty req.authorization) _ _
        (λ e. absurd (n (empty-nil req.authorization e)))
        (λ e. rw (short-substr req.authorization h) refl)

  -- If the first handler on the way of a request asks for authorisation, one of one to five bytes
  -- ends in an exception, whatever else is on the way.
  pub handle_path-short :
      (handlers : Handlers) (req : Request) (path : List Text) (m : Text → Run Bool)
      (a : Request → Text → Text → Run Bool) (f : Request → List Text → Run Response) (c : Handlers)
      (way : List Handler)
      → (trail p handlers req (skip_empty path)).0 ≡ handler m a f c true ∷ way
      → req.authorization ≢ []
      → length req.authorization < 6
      → handle_path p req path handlers ≡ overflow
  unfolding admit
  handle_path-short handlers req path m a f c way e n h =
      rw (handle_path-follow p handlers req path, e, short-authorise a req n h) refl
