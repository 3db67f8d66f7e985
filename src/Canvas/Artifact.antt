-- ===== src/Canvas/Artifact.antt =====
-- packages/plugin-canvas/src/schema.ts and errors.ts: the artifact and its schema. Zod's
-- `datetime()` is the parameter `is_datetime`. A free-form JSON object (a whiteboard scene, a
-- parsed slide) is a text, which no check reads; numbers of the schema are natural, as its
-- `int().nonnegative()` requires.
use theokit_plugins.Common.{
  ℕ, String, Bool, true, false, Option, none, some, List, ◌∷◌, ◌&&◌, ◌||◌, leb, nat_beq, length,
  if◌then◌else◌,
}
use theokit_plugins.Common.Async.{Attempt, returned, threw}
use theokit_plugins.Common.Text.{
  codes, js_length, byte_length, begins, begins_any_case, is_space, skip_spaces,
}

pub data CreatedAt : Type 0 where
  iso : String → CreatedAt
  epoch : ℕ → CreatedAt

pub data Sandbox : Type 0 where
  minimal scripts forms : Sandbox

pub data LineKind : Type 0 where
  added removed unchanged meta : LineKind

pub record DiffLine : Type 0 where
  pub kind : LineKind
  pub old_number : Option ℕ
  pub new_number : Option ℕ
  pub content : String

pub record Hunk : Type 0 where
  pub id : String
  pub header : Option String
  pub collapsed : Option Bool
  pub lines : List DiffLine

pub data Slides : Type 0 where
  source_text : String → Slides
  parsed : List String → Slides

pub data Kind : Type 0 where
  markdown code diff svg whiteboard_scene slide_deck mermaid html image : Kind

pub data Payload : Type 0 where
  markdown_of : (content : String) → Payload
  code_of : (language content : String) → (terminal : Option Bool) → Payload
  diff_of : (path : String) → (stats : Option (ℕ × ℕ)) → (hunks : List Hunk) → Payload
  svg_of : (content : String) → Payload
  scene_of : (scene : String) → Payload
  slides_of : Slides → Payload
  mermaid_of : (content : String) → Payload
  html_of : (srcdoc : String) → Sandbox → Payload
  image_data : (alt data_url : String) → (width height : Option ℕ) → Payload
  image_url : (alt url : String) → (width height : Option ℕ) → Payload

pub record Artifact : Type 0 where
  pub id : String
  pub session_id : Option String
  pub title : String
  pub version : ℕ
  pub created_at : CreatedAt
  pub payload : Payload

abbrev pub kind_of : Payload → Kind
kind_of (markdown_of c) = markdown
kind_of (code_of l c t) = code
kind_of (diff_of p s h) = diff
kind_of (svg_of c) = svg
kind_of (scene_of s) = whiteboard_scene
kind_of (slides_of s) = slide_deck
kind_of (mermaid_of c) = mermaid
kind_of (html_of s m) = html
kind_of (image_data a d w h) = image
kind_of (image_url a u w h) = image

pub data CanvasError : Type 0 where
  validation : CanvasError
  version_taken : (id : String) → (version : ℕ) → CanvasError
  not_found : (id : String) → (version : Option ℕ) → CanvasError
  security : (reason : String) → CanvasError

-- `z.string().min(lo).max(hi)`
abbrev pub sized : ℕ → ℕ → String → Bool
sized lo hi s = leb lo (js_length s) && leb (js_length s) hi

abbrev pub optionally : {A : Type 0} → (A → Bool) → Option A → Bool
optionally p none = true
optionally p (some a) = p a

-- `/^\s*<svg[\s>]/i`
abbrev after_svg : List ℕ → Bool
after_svg (l ∷ s ∷ v ∷ g ∷ c ∷ rest) = is_space c || nat_beq c b'>'
after_svg _ = false

unfoldable pub opens_svg : String → Bool
opens_svg s = let cs = skip_spaces (codes s) in begins_any_case (codes "<svg") cs && after_svg cs

-- `/^data:image\/(png|jpeg|webp|gif|svg\+xml);base64,/i`
unfoldable pub is_image_data : String → Bool
is_image_data s =
    let at = λ (prefix : String). begins_any_case (codes prefix) (codes s) in
    at "data:image/png;base64,"
    || at "data:image/jpeg;base64,"
    || at "data:image/webp;base64,"
    || at "data:image/gif;base64,"
    || at "data:image/svg+xml;base64,"

unfoldable pub payload_ok : Payload → Bool
unfolding opens_svg is_image_data
payload_ok (markdown_of c) = leb (byte_length c) 1048576
payload_ok (code_of l c t) = sized 1 32 l && leb (byte_length c) 1048576
payload_ok (diff_of p s h) = sized 1 1024 p
payload_ok (svg_of c) = leb (byte_length c) 262144 && opens_svg c
payload_ok (scene_of s) = true
payload_ok (slides_of (source_text s)) = leb (byte_length s) 1048576
payload_ok (slides_of (parsed l)) = leb (length l) 200
payload_ok (mermaid_of c) = leb (byte_length c) 65536
payload_ok (html_of s m) = leb (byte_length s) 262144
payload_ok (image_data a d w h) =
    sized 1 500 a
    && is_image_data d
    && leb (js_length d) 5242880
    && optionally (leb 1) w
    && optionally (leb 1) h
payload_ok (image_url a u w h) =
    sized 1 500 a
    && begins (codes "https://") (codes u)
    && optionally (leb 1) w
    && optionally (leb 1) h

module _ (is_datetime : String → Bool) where
  abbrev date_ok : CreatedAt → Bool
  date_ok (iso s) = is_datetime s
  date_ok (epoch n) = true

  -- `artifactSchema.safeParse(…).success`, `isArtifact`
  unfoldable pub is_artifact : Artifact → Bool
  is_artifact a =
      sized 1 128 a.id
      && optionally (sized 1 128) a.session_id
      && sized 1 200 a.title
      && leb 1 a.version
      && date_ok a.created_at
      && payload_ok a.payload

  -- `validateArtifact`; the issues are left out.
  unfoldable pub validate_artifact : Artifact → Attempt CanvasError Artifact
  validate_artifact a = if is_artifact a then returned a else threw validation
