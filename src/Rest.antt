-- ===== src/Rest.antt =====
-- The service of src/utility/restservice.cpp and include/utility/restservice.h: the lookup of a
-- request in the tree of handlers, with the authorisation that the handlers ask for. The
-- `std::function`s of a handler are parameters; one that is empty throws. Children model the
-- session and base64.
pub mod Trail
pub mod Guarded
pub mod Credentials
pub mod Session
pub mod Base64
mod Tests
use muondetector_cluster.Prelude.{
  ℕ, ◌-◌, ◌^◌, Bool, true, false, ◌||◌, ◌&&◌, not, List, [], ◌∷◌, ◌++◌, Option, none, some,
  if◌then◌else◌, ◌==◌, ltb, length, take, Text, add_64,
}
use muondetector_cluster.Prelude.Texts.{codes}
use muondetector_cluster.Prelude.Rings.{drop}
use muondetector_cluster.Message.{is_empty}
use muondetector_cluster.Message.Lines.{getlines, cut}
use muondetector_cluster.Source.Run.{Run, done, overflow, ◌>>=◌}

-- What the service reads of a request; `authorization` is empty when the request has no such field.
pub record Request : Type 0 where
  pub target : Text
  pub version : ℕ
  pub keep_alive : Bool
  pub authorization : Text

pub record Response : Type 0 where
  pub status : ℕ
  pub version : ℕ
  pub server : Text
  pub content_type : Text
  pub keep_alive : Bool
  pub body : Text

abbrev pub bad_request : ℕ
bad_request = 400

abbrev pub unauthorized : ℕ
unauthorized = 401

abbrev pub service_unavailable : ℕ
service_unavailable = 503

-- The constant of the library, and what `base64::decode` does, which may throw.
pub record Platform : Type 0 where
  pub beast_version : Text
  pub decode : Text → Run Text

mutual
  pub data Handler : Type 0 where
    handler :
        (matches : Text → Run Bool) (authenticate : Request → Text → Text → Run Bool)
        (handle : Request → List Text → Run Response) (children : Handlers) (requires_auth : Bool)
        → Handler

  pub data Handlers : Type 0 where
    end : Handlers
    next : Handler → Handlers → Handlers

abbrev pub none_installed : Handlers → Bool
none_installed end = true
none_installed (next h hs) = false

unfoldable pub npos : ℕ
npos = 2 ^ 64 - 1

-- `find_first_of` from the position `i` on
unfoldable pub find_first_of : ℕ → ℕ → Text → ℕ
find_first_of c i [] = npos
find_first_of c i (x ∷ s) = if x == c then i else find_first_of c (add_64 i 1) s

-- `substr`, which throws `std::out_of_range` when the position is behind the end.
unfoldable pub substr : ℕ → ℕ → Text → Run Text
substr pos count s = if ltb (length s) pos then overflow else done (take count (drop pos s))

-- `find("..") != npos`
unfoldable pub has_dots : Text → Bool
has_dots [] = false
has_dots (a ∷ []) = false
has_dots (a ∷ b ∷ s) = (a == b'.' && b == b'.') || has_dots (b ∷ s)

-- `std::getline(stream, part, '/')` until the stream ends; an empty part at the end is not found.
unfoldable pub path_parts : Text → List Text
unfolding cut
path_parts target = getlines b'/' target

-- `while (!path.empty() && path.front().empty()) path.pop();`
unfoldable pub skip_empty : List Text → List Text
skip_empty [] = []
skip_empty ([] ∷ path) = skip_empty path
skip_empty ((c ∷ part) ∷ path) = (c ∷ part) ∷ path

-- The user's name and the password; `delimiter + 1` wraps to 0 when there is no delimiter.
unfoldable pub credentials : Text → Run (Text × Text)
unfolding find_first_of substr
credentials auth =
    let delimiter = find_first_of b':' 0 auth in
    substr 0 delimiter auth >>= λ username.
    substr (add_64 delimiter 1) npos auth >>= λ password. done (username, password)

module _ (p : Platform) where
  unfoldable pub http_response : ℕ → Request → Text → Response
  http_response status req why = record {
    status = status;
    version = req.version;
    server = p.beast_version;
    content_type = codes "text/html";
    keep_alive = req.keep_alive;
    body = why;
  }

  -- The block `if (hand.requires_auth)`: the answer that it returns with, if it does.
  unfoldable pub authorise :
      (Request → Text → Text → Run Bool) → Bool → Request → Run (Option Response)
  unfolding http_response credentials substr
  authorise authenticate false req = done none
  authorise authenticate true req =
      if is_empty req.authorization
      then done (some (http_response unauthorized req (codes "Need authorisation")))
      else (substr 6 npos req.authorization >>= λ code. p.decode code >>= λ auth.
          credentials auth >>= λ (username, password).
          authenticate req username password >>= λ accepted. done (
            if accepted
            then none
            else some (
                http_response unauthorized req
                  (codes "Authorisation failed for user: '" ++ username ++ codes "'"))))

  -- The second `handle`, behind its first loop: the search for the first handler that matches, what
  -- is done with it, and the call for its children, whose first loop runs before they are searched.
  unfoldable mutual
    pub dispatch_handler : Handlers → Request → List Text → Run Response
    dispatch_handler hs req [] = done (http_response bad_request req (codes "Request-target empty"))
    dispatch_handler end req (front ∷ path) =
        done (http_response bad_request req (codes "Illegal request-target"))
    dispatch_handler (next (handler matches authenticate handle children requires_auth) hs) req
          (front ∷ path) =
        matches front >>= λ found.
        if found
        then visit (handler matches authenticate handle children requires_auth) req path
        else dispatch_handler hs req (front ∷ path)

    pub visit : Handler → Request → List Text → Run Response
    visit (handler matches authenticate handle children requires_auth) req path =
        authorise authenticate requires_auth req >>= λ answer. elim answer [
          | some refusal ↦ done refusal
          | none ↦
              if none_installed children || is_empty path
              then handle req path
              else dispatch_handler children req (skip_empty path)
        ]

  unfoldable pub handle_path : Request → List Text → Handlers → Run Response
  unfolding dispatch_handler skip_empty
  handle_path req path handlers = dispatch_handler handlers req (skip_empty path)

  abbrev starts_with_slash : Text → Bool
  starts_with_slash [] = false
  starts_with_slash (c ∷ s) = c == b'/'

  -- The first `handle`.
  unfoldable pub handle_request : Handlers → Request → Run Response
  unfolding handle_path has_dots path_parts http_response
  handle_request handlers req =
      if not (starts_with_slash req.target) || has_dots req.target
      then done (http_response bad_request req (codes "Malformed request-target"))
      else if none_installed handlers
      then done (http_response service_unavailable req (codes "No handler installed"))
      else handle_path req (path_parts req.target) handlers
