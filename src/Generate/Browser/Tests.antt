-- ===== src/Generate/Browser/Tests.antt =====
-- cmd/sendit/generate.go: the profiles of a browser.
use sendit.Prelude.{◌≡◌, refl, true, false, List, [], ◌∷◌, ◌++◌, none, some, ok, err}
use sendit.Prelude.Text.{Text, codes, has_prefix}
use sendit.Generate.Browser.{
  System, unparsable, unsupported_os, default_path, first_default, chrome_path, firefox_path,
}

abbrev profiles : List Text
profiles =
    codes "[Profile1]"
    ∷ codes "Path=Profiles/a.default"
    ∷ codes "[Profile0]"
    ∷ codes "Path=Profiles/b.release"
    ∷ codes "Default=1"
    ∷ []

finds : default_path false [] profiles ≡ some (codes "Profiles/b.release")
unfolding default_path
finds = refl

falls_back :
    first_default ((codes "x.default", false) ∷ (codes "y.default", true) ∷ [])
    ≡ some (codes "y.default")
unfolding first_default
falls_back = refl

abbrev joined : List Text → Text
joined [] = []
joined (p ∷ []) = p
joined (p ∷ q ∷ ps) = p ++ (b'/' ∷ joined (q ∷ ps))

abbrev system : Text → System
unfolding has_prefix
system goos = record {
  goos = goos;
  home = some (codes "/h");
  join = joined;
  dir = λ path. codes "/h/Library/Application Support/Firefox";
  is_abs = λ path. has_prefix path (codes "/");
  exists = λ path. true;
  lines = λ path. some profiles;
  entries = λ path. none;
  visits = λ db query limit. none;
  urls = λ db. none;
  bookmarks_json = λ path. err unparsable;
  bookmarks_plist = λ path. err unparsable;
}

-- On macOS the paths of profiles.ini are relative to its folder, and not to the folder Profiles in it.
profiles_twice :
    firefox_path (system (codes "darwin")) (codes "places.sqlite")
    ≡ ok (codes "/h/Library/Application Support/Firefox/Profiles/Profiles/b.release/places.sqlite")
unfolding firefox_path system
profiles_twice = refl

on_linux :
    chrome_path (system (codes "linux")) (codes "History")
    ≡ ok (codes "/h/.config/google-chrome/Default/History")
unfolding chrome_path system
on_linux = refl

on_windows : chrome_path (system (codes "windows")) (codes "History") ≡ err unsupported_os
unfolding chrome_path system
on_windows = refl
