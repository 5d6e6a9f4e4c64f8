-- ===== src/Tests/Gles.antt =====
-- A vendor whose symbols all lie at one address for each library.
use fake_libc.Common.{◌+◌, ◌≡◌, refl, none, arith}
use fake_libc.Gles.{Vendor, before_constructor, init_androidglesv2, load_all, gles2_load}
use fake_libc.Gles.Equivalence.{all_functions}
use fake_libc.Gles.Equivalence.Attributes.{SoundAttributes}
use fake_libc.Gles.Equivalence.Drawing.{SoundDrawing}
use fake_libc.Gles.Equivalence.Images.{SoundImages}
use fake_libc.Gles.Equivalence.Shaders.{SoundShaders}
use fake_libc.Gles.Equivalence.Uniforms.{SoundUniforms}

abbrev vendor : Vendor
vendor = record {
  android_dlopen = λ name. 40;
  dlsym = λ lib name. lib + 2;
  answer = λ calls p args. p;
}

opened : (init_androidglesv2 vendor none before_constructor).libglesv2 ≡ 40
unfolding init_androidglesv2 load_all gles2_load
opened = refl

all_functions_example :
    SoundAttributes vendor none 1 2 3 4 5 6 7
    × SoundDrawing vendor none 1 2 3 4
    × SoundImages vendor none 1 2 3 4 5 6 7 8 9
    × SoundShaders vendor none 1 2 3 4 5
    × SoundUniforms vendor none 1 2 3 4 5 6 7
all_functions_example = all_functions vendor none 1 2 3 4 5 6 7 8 9 (rw opened (omega arith))
