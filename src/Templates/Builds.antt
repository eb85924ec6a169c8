-- ===== src/Templates/Builds.antt =====
-- The templates that build a Docker image: internal/workflowtemplates.
use jettison_controller.Common.{[], ◌∷◌, none, some, true, false}
use jettison_controller.Text.{codes}
use jettison_controller.Flow.{empty_dir, secret, persistent_volume_claim}
use jettison_controller.Templates.{
  Container, Template, required, given, mount, volume, image_registry,
  deploy_steps_docker_build_diff_check_image, deploy_steps_docker_build_image,
}

abbrev docker_build_test_diff_check : Container
docker_build_test_diff_check = record {
  name = codes "docker-build-diff-check-pr";
  image = deploy_steps_docker_build_diff_check_image;
  args =
      codes "./docker-build-diff-check-pr.sh"
      ∷ codes "{{inputs.parameters.repo}}"
      ∷ codes "/workspace"
      ∷ codes "{{inputs.parameters.revision}}"
      ∷ codes "{{inputs.parameters.revision-ref}}"
      ∷ codes "{{inputs.parameters.base-revision}}"
      ∷ codes "{{inputs.parameters.base-revision-ref}}"
      ∷ codes "{{inputs.parameters.dockerfile-path}}"
      ∷ codes "{{inputs.parameters.docker-context-dir}}"
      ∷ codes "/workspace/jettison-deploy-step-status.txt"
      ∷ codes "/repo"
      ∷ [];
  env = [];
  unconfined = false;
  volume_mounts = [];
  dependencies = [];
}

abbrev docker_build_test_main : Container
docker_build_test_main = record {
  name = codes "main";
  image = deploy_steps_docker_build_image;
  args =
      codes "pr"
      ∷ codes "--clone-path"
      ∷ codes "/workspace"
      ∷ codes "--dockerfile"
      ∷ codes "{{inputs.parameters.dockerfile-path}}"
      ∷ codes "--docker-context-dir"
      ∷ codes "{{inputs.parameters.docker-context-dir}}"
      ∷ codes "--status-file"
      ∷ codes "/workspace/jettison-deploy-step-status.txt"
      ∷ codes "--artifacts-dir"
      ∷ codes "/artifacts"
      ∷ codes "--num-artifacts"
      ∷ codes "{{inputs.parameters.num-artifacts}}"
      ∷ [];
  env = (codes "BUILDKITD_FLAGS", codes "--oci-worker-no-process-sandbox") ∷ [];
  unconfined = true;
  volume_mounts = mount (codes "buildkit-cache") (codes "/home/user/.local/share/buildkit") ∷ [];
  dependencies = codes "docker-build-diff-check-pr" ∷ [];
}

abbrev pub docker_build_test_template : Template
docker_build_test_template = record {
  name = codes "docker-build-test";
  active_deadline_seconds = none;
  inputs =
      required (codes "repo")
      ∷ required (codes "revision")
      ∷ required (codes "dockerfile-path")
      ∷ required (codes "docker-context-dir")
      ∷ required (codes "revision-ref")
      ∷ required (codes "base-revision")
      ∷ required (codes "base-revision-ref")
      ∷ required (codes "num-artifacts")
      ∷ [];
  container = none;
  container_set = some (record {
    containers = docker_build_test_diff_check ∷ docker_build_test_main ∷ [];
    volume_mounts =
        mount (codes "docker-build-pr-workspace") (codes "/workspace")
        ∷ mount (codes "docker-build-pr-artifacts") (codes "/artifacts")
        ∷ [];
  });
  volumes =
      volume (codes "docker-build-pr-workspace") empty_dir
      ∷ volume (codes "docker-build-pr-artifacts") empty_dir
      ∷ volume (codes "buildkit-cache") (persistent_volume_claim (codes "buildkit-cache-pvc"))
      ∷ [];
  output_parameters =
      record {
        name = codes "jettison-deploy-step-status";
        path = codes "/workspace/jettison-deploy-step-status.txt";
        global_name = [];
      }
      ∷ [];
  output_artifacts = [];
  mutexes = [];
}

abbrev docker_build_test_publish_diff_check : Container
docker_build_test_publish_diff_check = record {
  name = codes "docker-build-diff-check-commit";
  image = deploy_steps_docker_build_diff_check_image;
  args =
      codes "./docker-build-diff-check-commit.sh"
      ∷ codes "{{inputs.parameters.repo}}"
      ∷ codes "/workspace"
      ∷ codes "{{inputs.parameters.revision}}"
      ∷ codes "{{inputs.parameters.revision-ref}}"
      ∷ codes "{{inputs.parameters.dockerfile-path}}"
      ∷ codes "{{inputs.parameters.docker-context-dir}}"
      ∷ codes "/workspace/jettison-deploy-step-status.txt"
      ∷ codes "/repo"
      ∷ [];
  env = [];
  unconfined = false;
  volume_mounts = [];
  dependencies = [];
}

abbrev docker_build_test_publish_main : Container
docker_build_test_publish_main = record {
  name = codes "main";
  image = deploy_steps_docker_build_image;
  args =
      codes "commit"
      ∷ codes "--clone-path"
      ∷ codes "/workspace"
      ∷ codes "--revision-hash"
      ∷ codes "{{inputs.parameters.revision}}"
      ∷ codes "--revision-ref"
      ∷ codes "{{inputs.parameters.revision-ref}}"
      ∷ codes "--dockerfile"
      ∷ codes "{{inputs.parameters.dockerfile-path}}"
      ∷ codes "--docker-context-dir"
      ∷ codes "{{inputs.parameters.docker-context-dir}}"
      ∷ codes "--image-registry"
      ∷ codes "{{inputs.parameters.image-registry}}"
      ∷ codes "--image-repo"
      ∷ codes "{{inputs.parameters.image-repo}}"
      ∷ codes "--dockerfile-dir"
      ∷ codes "{{inputs.parameters.dockerfile-dir}}"
      ∷ codes "--status-file"
      ∷ codes "/workspace/jettison-deploy-step-status.txt"
      ∷ codes "--artifacts-dir"
      ∷ codes "/artifacts"
      ∷ codes "--num-artifacts"
      ∷ codes "{{inputs.parameters.num-artifacts}}"
      ∷ [];
  env = (codes "BUILDKITD_FLAGS", codes "--oci-worker-no-process-sandbox") ∷ [];
  unconfined = true;
  volume_mounts =
      mount (codes "docker-config") (codes "/home/user/.docker")
      ∷ mount (codes "buildkit-cache") (codes "/home/user/.local/share/buildkit")
      ∷ [];
  dependencies = codes "docker-build-diff-check-commit" ∷ [];
}

abbrev pub docker_build_test_publish_template : Template
docker_build_test_publish_template = record {
  name = codes "docker-build-test-publish";
  active_deadline_seconds = none;
  inputs =
      required (codes "repo")
      ∷ required (codes "revision")
      ∷ required (codes "revision-ref")
      ∷ required (codes "dockerfile-path")
      ∷ required (codes "docker-context-dir")
      ∷ required (codes "image-repo")
      ∷ required (codes "dockerfile-dir")
      ∷ given (codes "image-registry") image_registry
      ∷ required (codes "num-artifacts")
      ∷ [];
  container = none;
  container_set = some (record {
    containers = docker_build_test_publish_diff_check ∷ docker_build_test_publish_main ∷ [];
    volume_mounts =
        mount (codes "docker-build-commit-workspace") (codes "/workspace")
        ∷ mount (codes "docker-build-commit-artifacts") (codes "/artifacts")
        ∷ [];
  });
  volumes =
      volume (codes "docker-build-commit-workspace") empty_dir
      ∷ volume (codes "docker-build-commit-artifacts") empty_dir
      ∷ volume (codes "docker-config") (secret (codes "regcred"))
      ∷ volume (codes "buildkit-cache") (persistent_volume_claim (codes "buildkit-cache-pvc"))
      ∷ [];
  output_parameters =
      record {
        name = codes "jettison-deploy-step-status";
        path = codes "/workspace/jettison-deploy-step-status.txt";
        global_name = [];
      }
      ∷ [];
  output_artifacts = [];
  mutexes = [];
}
