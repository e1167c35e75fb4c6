-- ===== src/Base/Paths.antt =====
-- `path/filepath` on Unix (Clean, Join, Split), `strings.Split` and `strings.TrimSuffix`, and
-- pkg/util/url.go.
use Prim.Native.Char.{Char}
use Prim.Native.String.{String, ◌++◌ as ◌<>◌}
use mathlib.Core.Bool.{Bool, false}
use mathlib.Core.Path.{◌≡◌, refl}
use mathlib.Core.List.{List, [], ◌∷◌, reverse}
use airshipctl.Base.Tests.{◌==◌, if◌then◌else◌}

abbrev pub text_of : Char → String
text_of c = String.◌∷◌ c String.[]

-- `strings.Split` by a character; the first argument is the element that is being read.
unfoldable pub split_from : String → String → String → List String
split_from sep elem String.[] = elem ∷ []
split_from sep elem (String.◌∷◌ c s) =
    let next = split_from sep "" s in
    let more = split_from sep (elem <> text_of c) s in
    if text_of c == sep then elem ∷ next else more

unfoldable pub split : String → String → List String
unfolding split_from
split sep s = split_from sep "" s

-- `strings.Join`
unfoldable pub join_with : String → List String → String
join_with sep [] = ""
join_with sep (s ∷ []) = s
join_with sep (s ∷ t ∷ rest) = s <> (sep <> join_with sep (t ∷ rest))

-- `elems[len(elems)-1]`, which `strings.Split` never leaves empty
unfoldable pub last_elem : List String → String
last_elem [] = ""
last_elem (s ∷ []) = s
last_elem (s ∷ t ∷ rest) = last_elem (t ∷ rest)

unfoldable pub trim_suffix : String → String → String
trim_suffix suffix String.[] = ""
trim_suffix suffix (String.◌∷◌ c s) =
    let rest = text_of c <> trim_suffix suffix s in if String.◌∷◌ c s == suffix then "" else rest

-- What `..` does to the elements kept so far, the last one first.
clean_dot_dot : Bool → List String → List String
clean_dot_dot rooted [] = if rooted then [] else ".." ∷ []
clean_dot_dot rooted (top ∷ below) = if top == ".." then ".." ∷ top ∷ below else below

clean_elem : Bool → List String → String → List String
unfolding clean_dot_dot
clean_elem rooted kept elem =
    if elem == ""
    then kept
    else if elem == "."
    then kept
    else if elem == ".."
    then clean_dot_dot rooted kept
    else elem ∷ kept

clean_elems : Bool → List String → List String → List String
unfolding clean_elem
clean_elems rooted kept [] = kept
clean_elems rooted kept (elem ∷ rest) = clean_elems rooted (clean_elem rooted kept elem) rest

unfoldable pub is_rooted : String → Bool
is_rooted String.[] = false
is_rooted (String.◌∷◌ c s) = text_of c == "/"

unfoldable pub clean : String → String
unfolding clean_elems split is_rooted join_with
clean path =
    let rooted = is_rooted path in
    let kept = join_with "/" (reverse (clean_elems rooted [] (split "/" path))) in
    if rooted then "/" <> kept else if kept == "" then "." else kept

-- `filepath.Join`: empty elements in front are dropped, and no element at all gives "".
unfoldable pub join : List String → String
unfolding clean join_with
join [] = ""
join (elem ∷ rest) =
    let later = join rest in if elem == "" then later else clean (join_with "/" (elem ∷ rest))

without_last : List String → List String
without_last [] = []
without_last (s ∷ []) = "" ∷ []
without_last (s ∷ t ∷ rest) = s ∷ without_last (t ∷ rest)

-- `filepath.Dir`
unfoldable pub dir : String → String
unfolding clean without_last
dir path = clean (join_with "/" (without_last (split "/" path)))

-- util.GitDirNameFromURL
unfoldable pub git_dir_name_from_url : String → String
unfolding split last_elem trim_suffix
git_dir_name_from_url url = trim_suffix ".git" (last_elem (split "/" url))

join_example : join ("" ∷ "/tmp/" ∷ "a//b/../c" ∷ "" ∷ "./d" ∷ []) ≡ "/tmp/a/c/d"
unfolding join
join_example = refl

join_above : join ("../x" ∷ "../../y" ∷ []) ≡ "../../y"
unfolding join
join_above = refl

git_dir_name_from_url_example : git_dir_name_from_url "http://dummy.org/phaserepo.git" ≡ "phaserepo"
unfolding git_dir_name_from_url
git_dir_name_from_url_example = refl

dir_example : dir "/home/u/.airship/config" ≡ "/home/u/.airship"
unfolding dir
dir_example = refl

dir_bare : dir "config" ≡ "."
unfolding dir
dir_bare = refl

-- `filepath.Base`, of a path that is not rooted in slashes alone
unfoldable pub base : String → String
unfolding split last_elem
base path =
    if path == ""
    then "."
    else if last_elem (split "/" (clean path)) == ""
    then "/"
    else last_elem (split "/" (clean path))
